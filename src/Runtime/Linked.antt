-- ===== src/Runtime/Linked.antt =====
-- Every unit of the translator can be linked, and what its region then holds.
use oryx.Prelude.{
  table-lookup, ℕ, ◌+◌, ◌*◌, ◌≡◌, refl, sym, ap, ◌∙◌, inl, inr, List, [], ◌∷◌, ◌++◌, length, drop,
  take-append, drop-append, length-append, append_assoc, append-nil, ◌==◌, ==_iff, arith,
}
use oryx.Wire.{put_u32, get_u32, IsU32}
use oryx.Wire.Codec.{get_u32-put_u32}
use oryx.Translator.Encoders.{enc_b}
use oryx.Translator.Growth.{bytes_of, bytes_of-append, length-bytes_of}
use oryx.Translator.Ending.{IsBranch}
use oryx.Runtime.Linker.{setpc_words, put_words, emit_setpc_ret, patched, wr32}

-- A branch redirected by `imm` instructions.
abbrev pub redirected : (w : ℕ) → IsBranch w → ℕ → ℕ
redirected w (inl plain) imm = 0x14000000 + imm
redirected w (inr (c, small, conditional)) imm = 0x54000000 + imm * 32 + c

pub patched-1 : (w : ℕ) (b : IsBranch w) → patched w 1 ≡ redirected w b 1
unfolding patched enc_b
patched-1 w (inl plain) = rw plain refl
patched-1 w (inr (c, small, e)) = rw e (
    (==_iff _ _).0
      (table-lookup (λ c. patched (0x54000000 + c) 1 == 0x54000020 + c) 16 c small refl))

pub patched-6 : (w : ℕ) (b : IsBranch w) → patched w 6 ≡ redirected w b 6
unfolding patched enc_b
patched-6 w (inl plain) = rw plain refl
patched-6 w (inr (c, small, e)) = rw e (
    (==_iff _ _).0
      (table-lookup (λ c. patched (0x54000000 + c) 6 == 0x540000C0 + c) 16 c small refl))

pub length-setpc : (pc : ℕ) → length (emit_setpc_ret pc) ≡ 20
unfolding emit_setpc_ret put_words setpc_words put_u32
length-setpc pc = refl

-- Code whose last word is `w`, with `tail` behind it.
module _ (ws : List ℕ) (w : ℕ) (tail : List ℕ) where
  abbrev pub region : ℕ → List ℕ
  region v = bytes_of (ws ++ v ∷ []) ++ tail

  split : (v : ℕ) → region v ≡ bytes_of ws ++ (put_u32 v ++ tail)
  split v =
      ap (λ t. t ++ tail)
        (bytes_of-append ws (v ∷ []) ∙ ap (λ t. bytes_of ws ++ t) (append-nil (put_u32 v)))
      ∙ append_assoc (bytes_of ws) (put_u32 v) tail

  length-before : length (bytes_of ws) ≡ 4 * length ws
  length-before = length-bytes_of ws

  pub length-code : length (bytes_of (ws ++ w ∷ [])) ≡ 4 * length ws + 4
  length-code = omega (arith, length-bytes_of (ws ++ w ∷ []), length-append ws (w ∷ []))

  pub drop-site : drop (4 * length ws) (region w) ≡ put_u32 w ++ tail
  drop-site =
      ap (drop (4 * length ws)) (split w)
      ∙ drop-append (4 * length ws) (bytes_of ws) _ length-before

  pub get_u32-site : IsU32 w → get_u32 (drop (4 * length ws) (region w)) ≡ w
  get_u32-site fits = ap get_u32 drop-site ∙ get_u32-put_u32 w tail fits

  drop-region : drop (4 * length ws + 4) (region w) ≡ tail
  drop-region =
      ap (λ n. drop n (region w)) (sym length-code)
      ∙ drop-append (length (bytes_of (ws ++ w ∷ []))) (bytes_of (ws ++ w ∷ [])) tail refl

  pub wr32-site : (v : ℕ) → wr32 (region w) (4 * length ws) v ≡ region v
  unfolding wr32
  wr32-site v =
      rw
        (
          drop-region,
          split w,
          take-append (4 * length ws) (bytes_of ws) (put_u32 w ++ tail) length-before,
        )
        (sym (split v))
