-- ===== src/Sha256/Streaming.antt =====
-- `sha256_update` copies its input in chunks; the context does not depend on how it was cut.
use oryx.Prelude.{
  ℕ, zero, suc, ◌+◌, ◌-◌, ◌*◌, ◌%◌, ◌^◌, ◌≤◌, ◌<◌, ◌≡◌, refl, sym, ap, ap₂, ◌∙◌, min, List, [], ◌∷◌,
  ◌++◌, length, take, drop, take-append-drop, length-append, length-drop, length-take, append_assoc,
  append-nil, ==_ne, arith,
}
use oryx.Sha256.{Context, flush_if_full, update_loop, update}

-- One byte at a time.
push : Context → ℕ → Context
push c x = flush_if_full (record c { buf = c.buf ++ x ∷ [] })

push_all : Context → List ℕ → Context
push_all c [] = c
push_all c (x ∷ xs) = push_all (push c x) xs

-- The buffer always has room for a byte.
abbrev pub HasRoom : Context → Type 0
HasRoom c = length c.buf < 64

push_all-append :
    (c : Context) (xs ys : List ℕ) → push_all c (xs ++ ys) ≡ push_all (push_all c xs) ys
unfolding push_all
push_all-append c [] ys = refl
push_all-append c (x ∷ xs) ys = push_all-append (push c x) xs ys

flush_if_full-HasRoom : (c : Context) → length c.buf ≤ 64 → HasRoom (flush_if_full c)
unfolding flush_if_full
flush_if_full-HasRoom c h = ground arith

push-HasRoom : (c : Context) (x : ℕ) → HasRoom c → HasRoom (push c x)
unfolding push
push-HasRoom c x h = flush_if_full-HasRoom _ (omega (arith, length-append c.buf (x ∷ [])))

flush_if_full-room : (c : Context) → HasRoom c → flush_if_full c ≡ c
unfolding flush_if_full
flush_if_full-room c h = rw (==_ne (length c.buf) 64 (omega arith))

push-room :
    (c : Context) (x : ℕ) → length c.buf < 63 → push c x ≡ record c { buf = c.buf ++ x ∷ [] }
unfolding push
push-room c x h = flush_if_full-room _ (omega (arith, length-append c.buf (x ∷ [])))

-- A chunk that fits the buffer is copied whole.
push_all-chunk :
    (c : Context) (xs : List ℕ)
    → HasRoom c
    → length c.buf + length xs ≤ 64
    → push_all c xs ≡ flush_if_full (record c { buf = c.buf ++ xs })
unfolding push_all
push_all-chunk c [] h fits = rw append-nil (sym (flush_if_full-room c h))
push_all-chunk c (x ∷ []) h fits = unfold push in refl
push_all-chunk c (x ∷ y ∷ ys) h fits = rw (push-room c x (omega arith)) (
    push_all-chunk (record c { buf = c.buf ++ x ∷ [] }) (y ∷ ys)
      (omega (arith, length-append c.buf (x ∷ []))) (omega (arith, length-append c.buf (x ∷ [])))
    ∙ rw (append_assoc c.buf (x ∷ []) (y ∷ ys)))

-- What one pass of the loop does to the context.
abbrev filled : Context → ℕ → List ℕ → Context
filled c n xs = flush_if_full (record c { buf = c.buf ++ take n xs })

module _ (c : Context) (n : ℕ) (xs : List ℕ) (room : length c.buf + n ≤ 64)
    (inside : n ≤ length xs) where
  filled-HasRoom : HasRoom (filled c n xs)
  filled-HasRoom =
      flush_if_full-HasRoom _
        (omega (arith, length-append c.buf (take n xs), length-take n xs inside))

  push_all-filled : HasRoom c → push_all c xs ≡ push_all (filled c n xs) (drop n xs)
  push_all-filled h =
      ap (push_all c) (sym (take-append-drop n xs))
      ∙ push_all-append c (take n xs) (drop n xs)
      ∙ ap (λ d. push_all d (drop n xs))
          (push_all-chunk c (take n xs) h (omega (arith, length-take n xs inside)))

-- The loop with enough fuel is the byte-wise reading of its input.
update_loop-push_all :
    (fuel : ℕ) (c : Context) (xs : List ℕ)
    → HasRoom c
    → length xs ≤ fuel
    → update_loop fuel c xs ≡ push_all c xs
unfolding update_loop
update_loop-push_all zero c [] h f = unfold push_all in refl
update_loop-push_all zero c (x ∷ xs) h f = absurd (omega arith)
update_loop-push_all (suc fuel) c [] h f = unfold push_all in refl
update_loop-push_all (suc fuel) c (x ∷ xs) h f =
    let n = min (64 - length c.buf) (length (x ∷ xs)) in
    update_loop-push_all fuel (filled c n (x ∷ xs)) (drop n (x ∷ xs))
      (filled-HasRoom c n (x ∷ xs) (omega arith) (omega arith))
      (omega (arith, length-drop n (x ∷ xs)))
    ∙ sym (push_all-filled c n (x ∷ xs) (omega arith) (omega arith) h)

push_all-HasRoom : (c : Context) (xs : List ℕ) → HasRoom c → HasRoom (push_all c xs)
unfolding push_all
push_all-HasRoom c [] h = h
push_all-HasRoom c (x ∷ xs) h = push_all-HasRoom (push c x) xs (push-HasRoom c x h)

-- An update leaves room for a byte: no write of `update` or `final` passes the end of `buf`.
pub update-HasRoom : (c : Context) (xs : List ℕ) → HasRoom c → HasRoom (update c xs)
unfolding update
update-HasRoom c xs h =
    rw (update_loop-push_all (length xs) (record c { bitlen = _ }) xs h (omega arith))
      (push_all-HasRoom _ xs h)

abbrev with_bits : Context → ℕ → Context
with_bits c v = record c { bitlen = v }

push-with_bits : (c : Context) (v x : ℕ) → push (with_bits c v) x ≡ with_bits (push c x) v
unfolding push flush_if_full
push-with_bits c v x = ground arith

push_all-with_bits :
    (c : Context) (v : ℕ) (xs : List ℕ) → push_all (with_bits c v) xs ≡ with_bits (push_all c xs) v
unfolding push_all
push_all-with_bits c v [] = refl
push_all-with_bits c v (x ∷ xs) = rw (push-with_bits c v x) (push_all-with_bits (push c x) v xs)

abbrev bits_after : Context → ℕ → ℕ
bits_after c n = (c.bitlen + n * 8) % 2 ^ 64

-- An update counts the bits and reads the bytes one by one.
update-push_all :
    (c : Context) (xs : List ℕ)
    → HasRoom c
    → update c xs ≡ with_bits (push_all c xs) (bits_after c (length xs))
unfolding update
update-push_all c xs h =
    update_loop-push_all (length xs) (with_bits c _) xs h (omega arith) ∙ push_all-with_bits c _ xs

-- Reading two pieces is reading them joined, the count of bits modulo 2 ^ 64 included.
pub update-append :
    (c : Context) (xs ys : List ℕ) → HasRoom c → update (update c xs) ys ≡ update c (xs ++ ys)
update-append c xs ys h =
    let d = with_bits (push_all c xs) (bits_after c (length xs)) in
    ap (λ t. update t ys) (update-push_all c xs h)
    ∙ update-push_all d ys (push_all-HasRoom c xs h)
    ∙ ap (λ t. with_bits t (bits_after d (length ys))) (push_all-with_bits (push_all c xs) _ ys)
    ∙ ap₂ with_bits (sym (push_all-append c xs ys)) (omega (arith, length-append xs ys))
    ∙ sym (update-push_all c (xs ++ ys) h)
