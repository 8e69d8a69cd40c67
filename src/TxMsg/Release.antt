-- ===== src/TxMsg/Release.antt =====
-- What every interleaving of a sender and its completion callbacks leaves of the message, for
-- driver/odl_tb5_ring_dma.c.
use odin_link_five.Prelude.{suc_add, ℕ, zero, suc, ◌+◌, ◌≤◌, ◌<◌, ◌≡◌, refl, true, arith}
use odin_link_five.TxMsg.Race.{
  counted, reading, swapping, dropping, leaving, left, Race, opened, counts, posts, closes,
  sees_none, wins, drops, leaves, last_frame, Accesses, start, access, IsCounted, Access-IsCounted,
}

Accesses-IsCounted : (a b : Race) → Accesses a b → IsCounted a → IsCounted b
Accesses-IsCounted _ _ (start s) h = h
Accesses-IsCounted _ _ (access a b c r s) h = Access-IsCounted b c s (Accesses-IsCounted a b r h)

opened-IsCounted : IsCounted opened
opened-IsCounted = ground arith

-- Whoever is about to put a reference holds one.
abbrev pub IsHeld : Race → Type 0
IsHeld s =
    (s.sender ≡ leaving → 0 < s.refs)
    × (s.sender ≡ dropping → 0 < s.refs)
    × (0 < s.at_put → 0 < s.refs)

-- The sender is gone, no frame is in the ring and no callback is under way.
abbrev pub IsQuiet : Race → Type 0
IsQuiet s =
    (s.sender ≡ left)
    × (s.in_ring ≡ 0)
    × (s.at_done ≡ 0)
    × (s.at_pending ≡ 0)
    × (s.at_swap ≡ 0)
    × (s.at_put ≡ 0)

held : (s : Race) → IsCounted s → IsHeld s
held s h = ground arith

freed : (s : Race) → IsCounted s → IsQuiet s → s.frees ≡ 1
freed s h q = ground arith

at_most_once : (s : Race) → IsCounted s → s.frees ≤ 1
at_most_once s h = ground arith

-- In every interleaving of a sender with its callbacks, access by access, the message is freed at
-- most once and no reference is put that is not held; and once the sender is gone, no frame is in the
-- ring and no callback is under way, it was freed, so it does not leak.
pub released-once :
    (s : Race) → Accesses opened s → (s.frees ≤ 1) × IsHeld s × (IsQuiet s → s.frees ≡ 1)
released-once s run =
    let h = Accesses-IsCounted opened s run opened-IsCounted in
    (at_most_once s h, held s h, freed s h)

-- `n` callbacks that brought `frames_pending` to zero and have not read `done`.
abbrev waiting : ℕ → Race
waiting n = record opened { at_done = n }

one_more : (n : ℕ) → Accesses opened (waiting n) → Accesses opened (waiting (n + 1))
one_more n run =
    let c = record (waiting n) { sender = counted; pending = 1 } in
    let p = record (waiting n) { pending = 1; in_ring = 1 } in
    access opened p (waiting (n + 1))
      (access opened c p (access opened (waiting n) c run (counts (waiting n) refl)) (posts c refl))
      (last_frame p (omega arith) refl)

all_wait : (n : ℕ) → Accesses opened (waiting n)
all_wait zero = start opened
all_wait (suc n) = rw (suc_add n) (one_more n (all_wait n))

-- The message is freed, and `n` callbacks stand at a read of it.
abbrev pub outlived : ℕ → Race
outlived n = record opened {
  refs = 0;
  completion_ref = 0;
  done = true;
  frees = 1;
  sender = left;
  at_done = n;
}

-- An interleaving that frees the message while `n` callbacks have yet to read its `done`. The driver
-- runs its callbacks one after another, so more than one there is the relation's doing.
pub callbacks-outlive : (n : ℕ) → Accesses opened (outlived n)
callbacks-outlive n =
    let a = record (waiting n) { sender = reading; done = true } in
    let b = record a { sender = swapping } in
    let c = record b { sender = dropping; completion_ref = 0 } in
    let d = record c { sender = leaving; refs = 1 } in
    access opened d (outlived n)
      (access opened c d
        (access opened b c
          (access opened a b (access opened (waiting n) a (all_wait n) (closes (waiting n) refl))
            (sees_none a refl refl))
          (wins b refl refl))
        (drops c refl))
      (leaves d refl)
