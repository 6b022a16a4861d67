-- ===== src/Store/Listing/Order.antt =====
-- The order of the list of captures.
use Prim.Native.Nat.{Ordering}
use optic.Prelude.{◌<◌, ◌≢◌, ◌⊎◌, All-imp, List, [], ◌∷◌, ◌≡◌, arith, All}
use optic.Prelude.Sorting.{
  cmp, Sorted, IsOrder, compare-IsOrder, cmp-IsOrder, key-IsOrder, swapped-IsOrder, then-IsOrder,
}
use optic.Records.CaptureRecord.{CaptureRecord}
use optic.Store.Listing.{newest}

pub newest-IsOrder : {A : Type 0} → IsOrder (newest {A = A})
newest-IsOrder {A = A} =
    then-IsOrder
      (key-IsOrder (λ (c : CaptureRecord A). c.completed_at_unix_ms)
        (swapped-IsOrder compare-IsOrder))
      (key-IsOrder (λ (c : CaptureRecord A). c.id.text) cmp-IsOrder)

-- The first capture was completed later, or at the same time, where its identifier is not the
-- greater one.
abbrev pub Precedes : {A : Type 0} → CaptureRecord A → CaptureRecord A → Type 0
Precedes a b =
    (b.completed_at_unix_ms < a.completed_at_unix_ms)
    ⊎ ((a.completed_at_unix_ms ≡ b.completed_at_unix_ms) × (cmp a.id.text b.id.text ≢ Ordering.gt))

-- Each capture precedes all behind it.
abbrev pub Latest : {A : Type 0} → List (CaptureRecord A) → Type 0
Latest [] = Unit
Latest (c ∷ cs) = All (Precedes c) cs × Latest cs

newest-Precedes : {A : Type 0} (a b : CaptureRecord A) → newest a b ≢ Ordering.gt → Precedes a b
newest-Precedes a b h = ground (arith, h)

pub Sorted-Latest : {A : Type 0} (cs : List (CaptureRecord A)) → Sorted newest cs → Latest cs
Sorted-Latest [] h = tt
Sorted-Latest (c ∷ cs) (first, rest) = (All-imp (newest-Precedes c) cs first, Sorted-Latest cs rest)
