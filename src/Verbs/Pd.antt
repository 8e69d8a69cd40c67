-- ===== src/Verbs/Pd.antt =====
-- Protection domains, verbs/src/odl_tb5_verbs_pd.c: handles that a context tracks.
use odin_link_five.Prelude.{
  ℕ, ◌<◌, ◌≡◌, Bool, List, [], ◌∷◌, ◌++◌, Option, none, some, ◌==◌, ==_iff, length, arith,
}
use odin_link_five.Verbs.Handles
use odin_link_five.Verbs.Handles.{tally, tally-remove_added}
use odin_link_five.Verbs.Qp.{close}

abbrev pub max_pds : ℕ
max_pds = 256

-- What `ctx->pds` holds, and the domains whose memory is allocated.
pub record Domains : Type 0 where
  pub pds : List ℕ
  pub allocated : List ℕ

abbrev tracked : ℕ → Domains → Option (List ℕ) → Option ℕ × Domains
tracked pd s none = (none, s)
tracked pd s (some pds') = (some pd, record { pds = pds'; allocated = pd ∷ s.allocated })

-- The answer of `calloc`.
unfoldable pub alloc_pd : Option ℕ → Domains → Option ℕ × Domains
unfolding Handles.add
alloc_pd none s = (none, s)
alloc_pd (some pd) s = tracked pd s (Handles.add max_pds pd s.pds)

unfoldable pub dealloc_pd : ℕ → Domains → Domains
unfolding Handles.remove close
dealloc_pd pd s = record {
  pds = Handles.remove (λ x. x == pd) s.pds 0;
  allocated = close pd s.allocated;
}

module _ (pd : ℕ) (s : Domains) (room : length s.pds < max_pds) where
  alloc_pd-tracked :
      alloc_pd (some pd) s
      ≡ (some pd, record { pds = s.pds ++ (pd ∷ []); allocated = pd ∷ s.allocated })
  unfolding alloc_pd Handles.add
  alloc_pd-tracked = ground arith

  same_memory : close pd (pd ∷ s.allocated) ≡ s.allocated
  unfolding close
  same_memory = ground (arith, ==_iff pd pd)

  -- A domain that is allocated and released leaves the memory as it was, and the same domains
  -- tracked, apart from their order.
  dealloc-alloc :
      let s' = dealloc_pd pd (alloc_pd (some pd) s).1 in
      (s'.allocated ≡ s.allocated) × ((p : ℕ → Bool) → tally p s'.pds ≡ tally p s.pds)
  unfolding dealloc_pd close
  dealloc-alloc = rw alloc_pd-tracked (same_memory, tally-remove_added pd s.pds)
