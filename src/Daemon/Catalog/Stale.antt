-- ===== src/Daemon/Catalog/Stale.antt =====
-- A file of daemon/src/odl_tb5_daemon_catalog.c that was on both sides and is no more in the peer's
-- listing.
use odin_link_five.Prelude.{◌≡◌, refl, ap, ◌∙◌, not, List, none, some}
use odin_link_five.Daemon.Table.{FilePath, lookup, Unique, kept}
use odin_link_five.Daemon.Catalog.{everywhere, Entry, Catalog, is_remote, update_remote}
use odin_link_five.Daemon.Catalog.Peer.{first_for, listed, update_remote_lem}

module _ (p : FilePath) (listing : List (FilePath × Entry)) (e : Entry) (t : Catalog) (u : Unique t)
    (both : e.location ≡ everywhere) (here : lookup p t ≡ some e)
    (unlisted : first_for p listing ≡ none) where
  pub still_both : lookup p (update_remote listing t) ≡ some e
  still_both =
      update_remote_lem p listing t u
      ∙ ap (λ o. listed o (kept (λ x. not (is_remote x.location)) (lookup p t))) unlisted
      ∙ ap (kept (λ x. not (is_remote x.location))) here
      ∙ rw both refl
