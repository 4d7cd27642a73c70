-- ===== src/Registry/Bitmap.antt =====
-- The bitmap of free slots, by evaluation on its 256 values.
use dstx.Common.{
  ℕ, ◌+◌, ◌*◌, ◌/◌, ◌%◌, ◌^◌, ◌<◌, ◌≡◌, refl, Bool, true, false, Option, none, some, truth, not,
  bit_and, ◌==◌, ◌&&◌, ◌||◌, passes_below, at_passes_below, arith, ap, sym, subst, ltb, ◌≢◌,
}
use dstx.Common.Int.{pos}
use dstx.Registry.{find_from, find_free_slot, mark_slot_busy, mark_slot_free}

-- Whether the bitmap shows the slot as free.
abbrev pub is_free : ℕ → ℕ → Bool
is_free bitmap slot = truth (bit_and bitmap (2 ^ slot))

iff_test : Bool → Bool → Bool
iff_test true b = b
iff_test false b = not b

-- What marking slot i does to slot j.
mark_holds : ℕ → ℕ → ℕ → Bool
mark_holds bitmap i j =
    iff_test (is_free (mark_slot_busy bitmap (pos i)) j) (not (i == j) && is_free bitmap j)
    && iff_test (is_free (mark_slot_free bitmap (pos i)) j) ((i == j) || is_free bitmap j)

-- The number 256 * (4 * i + j) + bitmap stands for a bitmap and two slots.
mark_test : ℕ → Bool
mark_test n = mark_holds (n % 256) (n / 1024) (n / 256 % 4)

mark_table : passes_below mark_test 4096 ≡ true
unfolding mark_test mark_holds passes_below iff_test mark_slot_busy mark_slot_free
mark_table = refl

is_some : Option ℕ → ℕ → Bool
is_some none i = false
is_some (some j) i = j == i

is_some-eq : (o : Option ℕ) (i : ℕ) → is_some o i ≡ true → o ≡ some i
unfolding is_some
is_some-eq none i h = cc
is_some-eq (some j) i h = ap some (ground arith)

-- What holds of a bitmap in which the given slot is the one that is found.
unfoldable claim_holds : ℕ → Option ℕ → Bool
unfolding is_some find_free_slot find_from mark_slot_busy mark_slot_free
claim_holds bitmap none =
    not (is_free bitmap 0)
    && not (is_free bitmap 1)
    && not (is_free bitmap 2)
    && not (is_free bitmap 3)
claim_holds bitmap (some i) =
    ltb i 4
    && is_free bitmap i
    && not (is_some (find_free_slot (mark_slot_busy bitmap (pos i))) i)
    && is_some (find_free_slot (mark_slot_free (mark_slot_busy bitmap (pos i)) (pos i))) i

claim_test : ℕ → Bool
claim_test bitmap = claim_holds bitmap (find_free_slot bitmap)

claim_table : passes_below claim_test 256 ≡ true
unfolding claim_holds claim_test passes_below find_free_slot find_from
claim_table = refl

claim_facts :
    (bitmap : ℕ) (o : Option ℕ)
    → bitmap < 256
    → find_free_slot bitmap ≡ o
    → claim_holds bitmap o ≡ true
unfolding claim_test
claim_facts bitmap o lt e =
    subst (λ o. claim_holds bitmap o ≡ true) e
      (at_passes_below claim_test 256 bitmap lt claim_table)

clash : (b : Bool) → b ≡ true → b ≡ false → ⊥
clash b h k = cc

four_true :
    (a b c d : Bool)
    → (a && b && not c && d) ≡ true
    → (a ≡ true) × (b ≡ true) × (c ≡ false) × (d ≡ true)
four_true a b c d h = ground arith

eq-is_some : (o : Option ℕ) (i : ℕ) → o ≡ some i → is_some o i ≡ true
unfolding is_some
eq-is_some o i e = subst (λ o. is_some o i ≡ true) (sym e) (ground arith)

agree : (a b : Bool) → iff_test a b ≡ true → a ≡ b
unfolding iff_test
agree a b h = ground arith

of_parts :
    (b b' i i' j j' : ℕ)
    → b ≡ b'
    → i ≡ i'
    → j ≡ j'
    → mark_holds b i j ≡ true
    → mark_holds b' i' j' ≡ true
of_parts b b' i i' j j' eb ei ej h = cc

two_true : (a b : Bool) → a && b ≡ true → (a ≡ true) × (b ≡ true)
two_true a b h = ground arith

at_numbers :
    (bitmap i j : ℕ)
    → bitmap < 256
    → j < 4
    → let n = 256 * (4 * i + j) + bitmap in (n % 256 ≡ bitmap) × (n / 256 % 4 ≡ j) × (n / 1024 ≡ i)
at_numbers bitmap i j lt k = (omega arith, omega arith, omega arith)

-- Marking one slot changes the bit of that slot alone.
mark-is_free :
    (bitmap i j : ℕ)
    → bitmap < 256
    → i < 4
    → j < 4
    → (is_free (mark_slot_busy bitmap (pos i)) j ≡ (not (i == j) && is_free bitmap j))
      × (is_free (mark_slot_free bitmap (pos i)) j ≡ ((i == j) || is_free bitmap j))
unfolding mark_test mark_holds
mark-is_free bitmap i j lt li lj =
    let n = 256 * (4 * i + j) + bitmap in
    let at = at_numbers bitmap i j lt lj in
    let test = at_passes_below mark_test 4096 n (omega arith) mark_table in
    let holds = of_parts (n % 256) bitmap (n / 1024) i (n / 256 % 4) j at.0 at.2 at.1 test in
    let both =
      two_true
        (iff_test (is_free (mark_slot_busy bitmap (pos i)) j) (not (i == j) && is_free bitmap j))
        (iff_test (is_free (mark_slot_free bitmap (pos i)) j) ((i == j) || is_free bitmap j))
        holds in
    (agree _ _ both.0, agree _ _ both.1)

-- A slot that is found in a bitmap of eight bits lies below 4 and is free. Once it is marked busy, it
-- is not found again, once it is marked free after that, it is the one that is found, and marking it
-- busy leaves the other slots as they are.
pub find-mark :
    (bitmap i j : ℕ)
    → bitmap < 256
    → j < 4
    → find_free_slot bitmap ≡ some i
    → let busy = mark_slot_busy bitmap (pos i) in
      (i < 4)
      × (is_free bitmap i ≡ true)
      × (find_free_slot busy ≢ some i)
      × (find_free_slot (mark_slot_free busy (pos i)) ≡ some i)
      × (is_free busy j ≡ (not (i == j) && is_free bitmap j))
unfolding claim_holds
find-mark bitmap i j lt lj e =
    let busy = mark_slot_busy bitmap (pos i) in
    let again = is_some (find_free_slot busy) i in
    let back = is_some (find_free_slot (mark_slot_free busy (pos i))) i in
    let facts =
      four_true (ltb i 4) (is_free bitmap i) again back (claim_facts bitmap (some i) lt e) in
    let inside : i < 4 = ground (arith, facts.0) in
    (
      inside,
      facts.1,
      λ found. clash again (eq-is_some _ i found) facts.2,
      is_some-eq _ i facts.3,
      (mark-is_free bitmap i j lt inside lj).0,
    )
