-- ===== src/Utils/Write.antt =====
-- safe_write of dstx/src/utils.c, over what the calls of write(2) return, one after the other.
use dstx.Common.{
  ℕ, append_assoc, sym, subst, zero, suc, ◌+◌, ◌-◌, ◌%◌, ◌≤◌, ◌<◌, ◌≡◌, refl, ap, ◌∙◌, List, [],
  ◌∷◌, ◌++◌, length, take, drop, take-append-drop, arith,
}

-- A result of write: the number of bytes, EINTR, or another error.
pub data Outcome : Type 0 where
  wrote : (bytes : ℕ) → Outcome
  interrupted failed : Outcome

-- How the call ends: with the count, with -1 after an error, with -1 and EPIPE after a write of no
-- bytes; or it waits for the next outcome.
pub data End : Type 0 where
  returned : (count : ℕ) → End
  write_error broken_pipe waiting : End

-- The loop, at the buffer from `p` on and with `remaining`, a size_t, bytes to go. The second
-- component holds the bytes that the device took.
unfoldable pub write_loop : List Outcome → List ℕ → ℕ → (count : ℕ) → End × List ℕ
write_loop outcomes p zero count = (returned count, [])
write_loop [] p (suc remaining) count = (waiting, [])
write_loop (interrupted ∷ outcomes) p (suc remaining) count =
    write_loop outcomes p (suc remaining) count
write_loop (failed ∷ outcomes) p (suc remaining) count = (write_error, [])
write_loop (wrote zero ∷ outcomes) p (suc remaining) count = (broken_pipe, [])
write_loop (wrote (suc w) ∷ outcomes) p (suc remaining) count =
    let left = (suc remaining + 18446744073709551616 - suc w) % 18446744073709551616 in
    let rest = write_loop outcomes (drop (suc w) p) left count in (rest.0, take (suc w) p ++ rest.1)

unfoldable pub safe_write : List Outcome → List ℕ → End × List ℕ
safe_write outcomes buf = write_loop outcomes buf (length buf) (length buf)

-- What write(2) documents: it takes no more bytes than it was given.
unfoldable pub Obeys : List Outcome → ℕ → Type 0
Obeys outcomes zero = Unit
Obeys [] (suc remaining) = Unit
Obeys (interrupted ∷ outcomes) (suc remaining) = Obeys outcomes (suc remaining)
Obeys (failed ∷ outcomes) (suc remaining) = Unit
Obeys (wrote w ∷ outcomes) (suc remaining) =
    (w ≤ suc remaining) × Obeys outcomes (suc remaining - w)

-- The outcomes let the device make progress: no error, and as many writes of some bytes as there
-- are bytes to go.
unfoldable pub Progresses : List Outcome → ℕ → Type 0
Progresses outcomes zero = Unit
Progresses [] (suc n) = ⊥
Progresses (interrupted ∷ outcomes) (suc n) = Progresses outcomes (suc n)
Progresses (failed ∷ outcomes) (suc n) = ⊥
Progresses (wrote zero ∷ outcomes) (suc n) = ⊥
Progresses (wrote (suc w) ∷ outcomes) (suc n) = Progresses outcomes n

length-drop : (n : ℕ) (xs : List ℕ) → length (drop n xs) ≡ length xs - n
length-drop zero xs = omega arith
length-drop (suc n) [] = omega arith
length-drop (suc n) (x ∷ xs) = omega (arith, length-drop n xs)

wrapped_left :
    (remaining w : ℕ)
    → remaining < 18446744073709551616
    → w ≤ remaining
    → (remaining + 18446744073709551616 - w) % 18446744073709551616 ≡ remaining - w
wrapped_left remaining w h k = omega arith

module _ (count : ℕ) where
  -- A write of some bytes: the rest of the loop is the loop on the rest of the buffer.
  wrote_step :
      (w : ℕ) (outcomes : List Outcome) (p : List ℕ) (remaining : ℕ)
      → suc remaining < 18446744073709551616
      → w ≤ remaining
      → write_loop (wrote (suc w) ∷ outcomes) p (suc remaining) count ≡ (
          let rest = write_loop outcomes (drop (suc w) p) (suc remaining - suc w) count in
          (rest.0, take (suc w) p ++ rest.1))
  unfolding write_loop
  wrote_step w outcomes p remaining lt le =
      ap
        (λ left.
          let rest = write_loop outcomes (drop (suc w) p) left count in
          (rest.0, take (suc w) p ++ rest.1))
        (wrapped_left (suc remaining) (suc w) lt (omega arith))

  -- The bytes that the device took begin the buffer, and they are all of it if the loop returns.
  pub Delivers : End × List ℕ → List ℕ → Type 0
  Delivers result p =
      ((rest : List ℕ) × (result.1 ++ rest ≡ p))
      × ((c : ℕ) → result.0 ≡ returned c → (c ≡ count) × (result.1 ≡ p))

  append-Delivers :
      (n : ℕ) (p : List ℕ) (result : End × List ℕ)
      → Delivers result (drop n p)
      → Delivers (result.0, take n p ++ result.1) p
  unfolding Delivers
  append-Delivers n p result h = (
    (
      h.0.0,
      append_assoc (take n p) result.1 h.0.0 ∙ ap (λ q. take n p ++ q) h.0.1 ∙ take-append-drop n p,
    ),
    λ c e. ((h.1 c e).0, ap (λ q. take n p ++ q) (h.1 c e).1 ∙ take-append-drop n p),
  )

  loop-Delivers :
      (outcomes : List Outcome) (p : List ℕ) (remaining : ℕ)
      → length p ≡ remaining
      → remaining < 18446744073709551616
      → Obeys outcomes remaining
      → Delivers (write_loop outcomes p remaining count) p
  unfolding write_loop Obeys Delivers
  loop-Delivers outcomes [] zero len lt ok = (([], refl), λ c e. (cc, refl))
  loop-Delivers outcomes (x ∷ p) zero len lt ok = absurd (omega (arith, len))
  loop-Delivers [] p (suc remaining) len lt ok = ((p, refl), λ c e. cc)
  loop-Delivers (interrupted ∷ outcomes) p (suc remaining) len lt ok =
      loop-Delivers outcomes p (suc remaining) len lt ok
  loop-Delivers (failed ∷ outcomes) p (suc remaining) len lt ok = ((p, refl), λ c e. cc)
  loop-Delivers (wrote zero ∷ outcomes) p (suc remaining) len lt ok = ((p, refl), λ c e. cc)
  loop-Delivers (wrote (suc w) ∷ outcomes) p (suc remaining) len lt ok =
      let left = suc remaining - suc w in
      let shorter = length-drop (suc w) p ∙ ap (λ k. k - suc w) len in
      let ih = loop-Delivers outcomes (drop (suc w) p) left shorter (omega arith) ok.1 in
      subst (λ r. Delivers r p) (sym (wrote_step w outcomes p remaining lt (omega arith)))
        (append-Delivers (suc w) p _ ih)

  loop_complete :
      (outcomes : List Outcome) (p : List ℕ) (remaining n : ℕ)
      → length p ≡ remaining
      → remaining ≤ n
      → remaining < 18446744073709551616
      → Obeys outcomes remaining
      → Progresses outcomes n
      → write_loop outcomes p remaining count ≡ (returned count, p)
  unfolding write_loop Obeys Progresses
  loop_complete outcomes [] zero n len le lt ok go = refl
  loop_complete outcomes (x ∷ p) zero n len le lt ok go = absurd (omega (arith, len))
  loop_complete outcomes p (suc remaining) zero len le lt ok go = absurd (omega arith)
  loop_complete [] p (suc remaining) (suc n) len le lt ok go = absurd go
  loop_complete (interrupted ∷ outcomes) p (suc remaining) (suc n) len le lt ok go =
      loop_complete outcomes p (suc remaining) (suc n) len le lt ok go
  loop_complete (failed ∷ outcomes) p (suc remaining) (suc n) len le lt ok go = absurd go
  loop_complete (wrote zero ∷ outcomes) p (suc remaining) (suc n) len le lt ok go = absurd go
  loop_complete (wrote (suc w) ∷ outcomes) p (suc remaining) (suc n) len le lt ok go =
      let left = suc remaining - suc w in
      let shorter = length-drop (suc w) p ∙ ap (λ k. k - suc w) len in
      let ih =
        loop_complete outcomes (drop (suc w) p) left n shorter (omega arith) (omega arith) ok.1
          go in
      wrote_step w outcomes p remaining lt (omega arith)
      ∙ ap (λ r. (r.0, take (suc w) p ++ r.1)) ih
      ∙ ap (λ q. (returned count, q)) (take-append-drop (suc w) p)

-- However write(2) splits the buffer and however often it is interrupted, what the device takes
-- begins the buffer, and if the call returns, it returns the length of the buffer and the device
-- took all of it.
pub safe_write-Delivers :
    (outcomes : List Outcome) (buf : List ℕ)
    → length buf < 18446744073709551616
    → Obeys outcomes (length buf)
    → Delivers (length buf) (safe_write outcomes buf) buf
unfolding safe_write
safe_write-Delivers outcomes buf lt ok =
    loop-Delivers (length buf) outcomes buf (length buf) refl lt ok

-- With no error and as many writes of some bytes as the buffer has bytes, the call returns, and the
-- device took the buffer.
pub safe_write_returns :
    (outcomes : List Outcome) (buf : List ℕ)
    → length buf < 18446744073709551616
    → Obeys outcomes (length buf)
    → Progresses outcomes (length buf)
    → safe_write outcomes buf ≡ (returned (length buf), buf)
unfolding safe_write
safe_write_returns outcomes buf lt ok go =
    loop_complete (length buf) outcomes buf (length buf) (length buf) refl (omega arith) lt ok go
