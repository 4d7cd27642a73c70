-- ===== src/Examples/Utils.antt =====
-- Writes that come in pieces, and messages that come too often.
use dstx.Common.{ℕ, ◌≡◌, refl, List, [], ◌∷◌, replicate, arith}
use dstx.Utils.Write.{
  Outcome, write_loop, wrote, interrupted, failed, returned, safe_write, Obeys, Progresses,
  safe_write-Delivers, safe_write_returns, Delivers,
}
use dstx.Utils.LogRate.{LogRate, log_ratelimit_time, logged_at}

abbrev buffer : List ℕ
buffer = 11 ∷ 22 ∷ 33 ∷ []

abbrev in_pieces : List Outcome
in_pieces = interrupted ∷ wrote 2 ∷ interrupted ∷ wrote 1 ∷ []

abbrev cut_short : List Outcome
cut_short = wrote 2 ∷ failed ∷ []

pieces-Obeys : Obeys cut_short 3
unfolding Obeys
pieces-Obeys = (omega arith, tt)

safe_write-Delivers_example : Delivers 3 (safe_write cut_short buffer) buffer
safe_write-Delivers_example = safe_write-Delivers cut_short buffer (omega arith) pieces-Obeys

-- One byte at a time.
abbrev bytewise : List Outcome
bytewise = wrote 1 ∷ interrupted ∷ wrote 1 ∷ wrote 1 ∷ []

bytewise-Obeys : Obeys bytewise 3
unfolding Obeys
bytewise-Obeys = (omega arith, (omega arith, (omega arith, tt)))

bytewise-Progresses : Progresses bytewise 3
unfolding Progresses
bytewise-Progresses = tt

safe_write_returns_example : safe_write bytewise buffer ≡ (returned 3, buffer)
safe_write_returns_example =
    safe_write_returns bytewise buffer (omega arith) bytewise-Obeys bytewise-Progresses

pieces : safe_write in_pieces buffer ≡ (returned 3, buffer)
unfolding safe_write write_loop
pieces = refl

abbrev quiet : LogRate
quiet = record { last_log_us = replicate 7 0; counter = replicate 7 0 }

twice_logged : logged_at 2 1000000 (1500000 ∷ 1600000 ∷ 2600000 ∷ []) quiet ≡ 1500000 ∷ 2600000 ∷ []
unfolding logged_at log_ratelimit_time
twice_logged = refl
