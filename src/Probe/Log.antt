-- ===== src/Probe/Log.antt =====
-- The log of oryx_probe.c: the bytes of `log_buf` in front of `log_len`.
use oryx.Prelude.{
  leb, if◌then◌else◌, Bool-cases, length, take, length-append, ℕ, zero, suc, ◌-◌, ◌≤◌, ◌<◌, inl,
  inr, List, [], ◌∷◌, ◌++◌, arith,
}

abbrev pub logsz : ℕ
logsz = 8192

-- `logf` of a text: `vscnprintf` writes what fits in front of the NUL.
unfoldable pub logf : List ℕ → List ℕ → List ℕ
logf text log =
    if leb (logsz - 1) (length log) then log else log ++ take (logsz - length log - 1) text

length-take_le {ℓ} : {A : Type ℓ} (n : ℕ) (xs : List A) → length (take n xs) ≤ n
length-take_le zero xs = omega arith
length-take_le (suc n) [] = omega arith
length-take_le (suc n) (x ∷ xs) = omega (arith, length-take_le n xs)

-- A text leaves room for the NUL.
pub length-logf : (text log : List ℕ) → length log < logsz → length (logf text log) < logsz
unfolding logf
length-logf text log h = elim (Bool-cases (leb (logsz - 1) (length log))) [
  | inl full ↦ rw full h
  | inr room ↦
      rw (room, length-append log (take (logsz - length log - 1) text))
        (ground (arith, length-take_le (logsz - length log - 1) text))
]
