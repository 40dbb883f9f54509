-- ===== src/Prelude/Ring.antt =====
-- Circular arrays: the items that an array holds from a head index on, going round at its capacity.
use Prim.Native.Nat.{ℕ, zero, suc, ◌+◌, ◌-◌, ◌%◌, ◌≤◌, ◌<◌}
use mathlib.Core.Path.{◌≡◌, refl, ap, ap₂, ◌∙◌}
use mathlib.Core.Logic.{◌≢◌}
use mathlib.Core.List.{List, [], ◌∷◌, ◌++◌}
use native.Mathlib.Nat.{mod-add-mod}
use native.Mathlib.Omega.{arith}
use sys_op.Prelude.Lists.{
  length, get_or, set, get_or-set_self, get_or-set_ne, length-set, length-append,
}

-- Within one lap no two positions of the circle coincide.
pub lap-ne : (cap h k : ℕ) → h < cap → 0 < k → k < cap → (h + k) % cap ≢ h
lap-ne cap h k hh hk lt = grind arith

module _ {ℓ} {A : Type ℓ} (d : A) (buf : List A) (cap : ℕ) where
  -- The `n` items from index `h` on.
  abbrev pub ring_items : ℕ → ℕ → List A
  ring_items h zero = []
  ring_items h (suc n) = get_or buf h d ∷ ring_items ((h + 1) % cap) n

  pub length-ring_items : (h n : ℕ) → length (ring_items h n) ≡ n
  length-ring_items h zero = refl
  length-ring_items h (suc n) = ap suc (length-ring_items ((h + 1) % cap) n)

  -- Taking the item at the head leaves the items after it.
  pub ring_items-pop :
      (h n : ℕ) → 0 < n → ring_items h n ≡ get_or buf h d ∷ ring_items ((h + 1) % cap) (n - 1)
  ring_items-pop h zero lt = absurd (omega arith)
  ring_items-pop h (suc n) lt =
      ap (λ k. get_or buf h d ∷ ring_items ((h + 1) % cap) k) (omega arith)

-- A write to the slot behind the last item appends to the items.
pub ring_items-push {ℓ} :
    {A : Type ℓ} (d : A) (buf : List A) (cap : ℕ) (x : A) (n h i : ℕ)
    → cap ≤ length buf
    → h < cap
    → n < cap
    → i ≡ (h + n) % cap
    → ring_items d (set buf i x) cap h (suc n) ≡ ring_items d buf cap h n ++ (x ∷ [])
ring_items-push d buf cap x zero h i fits hh hn e =
    let at_head : i ≡ h = grind arith in
    rw at_head (ap (λ y. y ∷ []) (get_or-set_self buf h x d (omega arith)))
ring_items-push d buf cap x (suc n) h i fits hh hn e =
    ap₂ ◌∷◌ (get_or-set_ne buf x d (rw e (lap-ne cap h (suc n) hh (omega arith) hn))) (
      ring_items-push d buf cap x n ((h + 1) % cap) i fits (omega arith) (omega arith)
        (e ∙ regroup))
  where
    regroup : (h + suc n) % cap ≡ ((h + 1) % cap + n) % cap
    regroup = rw mod-add-mod (ap (λ k. k % cap) (omega arith))

-- A circular array with a read index and a write index holds a queue.
pub record IsRing {ℓ} {A : Type ℓ} (d : A) (cap : ℕ) (buf : List A) (rd wr : ℕ) (q : List A)
    : Type ℓ where
  pub room : length buf ≡ cap
  pub rd_in : rd < cap
  pub wr_at : wr ≡ (rd + length q) % cap
  pub items : ring_items d buf cap rd (length q) ≡ q

module _ {ℓ} {A : Type ℓ} (d : A) (cap : ℕ) (buf : List A) (rd wr : ℕ) where
  -- A write at the write index, which moves on, appends to the queue if it is not full.
  pub IsRing-push :
      (q : List A) (x : A)
      → length q < cap
      → IsRing d cap buf rd wr q
      → IsRing d cap (set buf wr x) rd ((wr + 1) % cap) (q ++ (x ∷ []))
  IsRing-push q x lt r = record {
    room = omega (arith, length-set buf wr x, r.room);
    rd_in = r.rd_in;
    wr_at = rw (r.wr_at, mod-add-mod, grown) (ap (λ k. k % cap) (omega arith));
    items = rw grown (
        rw (ring_items-push d buf cap x (length q) rd wr fits r.rd_in lt r.wr_at)
          (ap (λ l. l ++ (x ∷ [])) r.items));
  }
    where
      grown : length (q ++ (x ∷ [])) ≡ suc (length q)
      grown = omega (arith, length-append q (x ∷ []))

      fits : cap ≤ length buf
      fits = omega (arith, r.room)

  -- A read at the read index, which moves on, takes the first item of the queue.
  pub IsRing-pop :
      (x : A) (q : List A)
      → IsRing d cap buf rd wr (x ∷ q)
      → (get_or buf rd d ≡ x) × IsRing d cap buf ((rd + 1) % cap) wr q
  IsRing-pop x q r = (
    cc r.items,
    record {
      room = r.room;
      rd_in = omega arith;
      wr_at = rw (r.wr_at, mod-add-mod) (ap (λ k. k % cap) (omega arith));
      items = cc r.items;
    },
  )
