-- ===== src/Profiles/Best.antt =====
-- `oryx_profile_resolve` of src/liboryxprofile/profile.c returns a compatible profile of the game that no other
-- one beats.
use oryx.Prelude.{
  ltb, ◌==◌, ltb_false→le, Bool-cases, All, All-append, ℕ, ◌≤◌, ◌≡◌, subst, refl, ap, ◌∙◌, inl, inr,
  Bool, true, false, ◌&&◌, ◌||◌, Option, none, some, List, [], ◌∷◌, ◌++◌, append_assoc, append-nil,
  arith,
}
use oryx.Errors.{Result, notfound, err, ok}
use oryx.Profiles.Text.{Libc}
use oryx.Profiles.Format.{Profile}
use oryx.Profiles.Ranking.{
  Caps, ProfileSet, Leader, found_profile, score, more_samples, better, is_candidate, consider,
  resolve_loop, resolve_profile,
}

pub All-weaken {ℓ} :
    {A : Type ℓ} (P Q : A → Type 0) (xs : List A) → ((x : A) → P x → Q x) → All P xs → All Q xs
All-weaken P Q [] h all = tt
All-weaken P Q (x ∷ xs) h all = (h x all.0, All-weaken P Q xs h all.1)

abbrev pub Member {ℓ} : {A : Type ℓ} → A → List A → Type ℓ
Member {A = A} x xs = (front : List A) × (back : List A) × (xs ≡ front ++ x ∷ back)

-- The numbers among the doubles, by their place in the order; the comparisons of other doubles are free.
pub record Compares (c : Libc) (place : c.Double → ℕ) (IsNumber : c.Double → Type 0) : Type 0 where
  pub greater : (a b : c.Double) → IsNumber a → IsNumber b → c.greater a b ≡ ltb (place b) (place a)
  pub equal : (a b : c.Double) → IsNumber a → IsNumber b → c.equal a b ≡ (place a == place b)

module _ (c : Libc) (place : c.Double → ℕ) (IsNumber : c.Double → Type 0)
    (order : Compares c place IsNumber) (game_build_hash : List ℕ) (caps : Caps) where
  -- `q` does not beat `p`.
  abbrev pub IsBelow : Profile c.Double → Profile c.Double → Type 0
  IsBelow p q =
      (place (score c q) ≤ place (score c p))
      × (place (score c q) ≡ place (score c p) → q.sample_count ≤ p.sample_count)

  abbrev pub candidate : Profile c.Double → Bool
  candidate = is_candidate c game_build_hash caps

  abbrev pub lowest : c.Double
  lowest = c.neg (c.literal 10 1)

  -- What the search may answer for a set of profiles.
  abbrev pub IsChoice : List (Profile c.Double) → Result (Profile c.Double) → Type 0
  IsChoice ps (ok p) =
      (candidate p ≡ true) × Member p ps × All (λ q. candidate q ≡ true → IsBelow p q) ps
  IsChoice ps (err e) =
      (e ≡ notfound) × All (λ q. candidate q ≡ true → place (score c q) ≤ place lowest) ps

  -- The locals of the loop behind `seen`.
  abbrev Standing : List (Profile c.Double) → Option (Profile c.Double) → c.Double → Type 0
  Standing seen none best =
      (best ≡ lowest) × All (λ q. candidate q ≡ true → place (score c q) ≤ place lowest) seen
  Standing seen (some b) best =
      (best ≡ score c b)
      × (candidate b ≡ true)
      × IsNumber (score c b)
      × Member b seen
      × All (λ q. candidate q ≡ true → IsBelow b q) seen

  module _ (seen : List (Profile c.Double)) (p : Profile c.Double) (number : IsNumber (score c p))
      (bottom : IsNumber lowest) where
    beats_none :
        (best : c.Double)
        → best ≡ lowest
        → better c p (record { best = none; best_score = best })
          ≡ ltb (place lowest) (place (score c p))
    unfolding better more_samples
    beats_none best e = rw e (
        rw
          (
            order.greater (score c p) lowest number bottom,
            order.equal (score c p) lowest number bottom,
          )
          (ground arith))

    beats_some :
        (b : Profile c.Double) (best : c.Double)
        → best ≡ score c b
        → IsNumber (score c b)
        → better c p (record { best = some b; best_score = best }) ≡ (
            ltb (place (score c b)) (place (score c p))
            || (place (score c p) == place (score c b) && ltb b.sample_count p.sample_count))
    unfolding better more_samples
    beats_some b best e nb = rw e (
        rw
          (
            order.greater (score c p) (score c b) number nb,
            order.equal (score c p) (score c b) number nb,
          )
          refl)

    abbrev seen_now : List (Profile c.Double)
    seen_now = seen ++ p ∷ []

    lead : Option (Profile c.Double) → c.Double → Leader c.Double
    lead o best = consider c game_build_hash caps p (record { best = o; best_score = best })

    kept :
        (o : Option (Profile c.Double)) (best : c.Double)
        → Standing seen_now o best
        → (candidate p && better c p (record { best = o; best_score = best })) ≡ false
        → Standing seen_now (lead o best).best (lead o best).best_score
    unfolding lead consider
    kept o best h e = rw e h

    replaced :
        (o : Option (Profile c.Double)) (best : c.Double)
        → candidate p ≡ true
        → All (λ q. candidate q ≡ true → IsBelow p q) seen
        → (candidate p && better c p (record { best = o; best_score = best })) ≡ true
        → Standing seen_now (lead o best).best (lead o best).best_score
    unfolding lead consider
    replaced o best y all e = rw e (
      refl,
      y,
      number,
      (seen, [], refl),
      All-append (λ q. candidate q ≡ true → IsBelow p q) seen (p ∷ []) all
          ((λ is. (omega arith, λ same. omega arith)), tt),
    )

    -- What `p` changes in the claim about the profiles seen, if it does not take the lead.
    passed_over :
        (o : Option (Profile c.Double)) (best : c.Double)
        → Standing seen o best
        → ((b : Profile c.Double) → o ≡ some b → candidate p ≡ true → IsBelow b p)
        → (o ≡ none → candidate p ≡ true → place (score c p) ≤ place lowest)
        → Standing seen_now o best
    passed_over none best (e, all) below low = (
      e,
      All-append (λ q. candidate q ≡ true → place (score c q) ≤ place lowest) seen (p ∷ []) all
          (low refl, tt),
    )
    passed_over (some b) best (e, y, n, (front, back, split), all) below low = (
      e,
      y,
      n,
      (front, back ++ p ∷ [], ap (λ t. t ++ p ∷ []) split ∙ append_assoc front (b ∷ back) (p ∷ [])),
      All-append (λ q. candidate q ≡ true → IsBelow b q) seen (p ∷ []) all (below b refl, tt),
    )

    not_beaten :
        (b : Profile c.Double)
        → (ltb (place (score c b)) (place (score c p))
            || (place (score c p) == place (score c b) && ltb b.sample_count p.sample_count))
          ≡ false
        → IsBelow b p
    not_beaten b loses = (ground arith, λ same. ground arith)

    consider-Standing :
        (o : Option (Profile c.Double)) (best : c.Double)
        → Standing seen o best
        → Standing seen_now (lead o best).best (lead o best).best_score
    consider-Standing none best (e, all) = elim (Bool-cases (candidate p)) [
      | inr other ↦
          kept none best (passed_over none best (e, all) (λ b h y. cc) (λ h y. cc)) (rw other refl)
      | inl y ↦ elim (Bool-cases (ltb (place lowest) (place (score c p)))) [
        | inl wins ↦
            replaced none best y
              (All-weaken _ _ seen
                (λ q below is. (ground (arith, below is), λ same. ground (arith, below is))) all)
              (rw (y, beats_none best e) wins)
        | inr loses ↦
            kept none best
              (passed_over none best (e, all) (λ b h z. cc) (λ h z. ltb_false→le _ _ loses))
              (rw (y, beats_none best e) loses)
      ]
    ]
    consider-Standing (some b) best (e, y, n, member, all) = elim (Bool-cases (candidate p)) [
      | inr other ↦
          kept (some b) best
            (passed_over (some b) best (e, y, n, member, all) (λ d h z. cc) (λ h z. cc))
            (rw other refl)
      | inl is ↦
          elim (Bool-cases (
            ltb (place (score c b)) (place (score c p))
            || (place (score c p) == place (score c b) && ltb b.sample_count p.sample_count))) [
              | inl wins ↦
                  replaced (some b) best is
                    (All-weaken _ _ seen
                      (λ q below z. (ground (arith, below z), λ same. ground (arith, below z))) all)
                    (rw (is, beats_some b best e n) wins)
              | inr loses ↦
                  kept (some b) best
                    (passed_over (some b) best (e, y, n, member, all)
                      (λ d h z.
                        let same : b ≡ d = cc h in
                        subst (λ q. IsBelow q p) same (not_beaten b loses))
                      (λ h z. cc))
                    (rw (is, beats_some b best e n) loses)
            ]
    ]

  resolve_loop-Standing :
      (seen ps : List (Profile c.Double)) (l : Leader c.Double)
      → IsNumber lowest
      → All (λ p. IsNumber (score c p)) ps
      → Standing seen l.best l.best_score
      → Standing
          (seen ++ ps)
          (resolve_loop c game_build_hash caps ps l).best
          (resolve_loop c game_build_hash caps ps l).best_score
  unfolding resolve_loop
  resolve_loop-Standing seen [] l bottom numbers h = rw append-nil h
  resolve_loop-Standing seen (p ∷ ps) l bottom numbers h = rw (← append_assoc seen (p ∷ []) ps) (
      resolve_loop-Standing (seen ++ p ∷ []) ps (consider c game_build_hash caps p l) bottom
        numbers.1 (unfold lead in consider-Standing seen p numbers.0 bottom l.best l.best_score h))

  choose :
      (ps : List (Profile c.Double)) (o : Option (Profile c.Double)) (best : c.Double)
      → Standing ps o best
      → IsChoice ps (found_profile o)
  unfolding found_profile
  choose ps none best (e, all) = (refl, all)
  choose ps (some b) best (e, y, n, member, all) = (y, member, all)

  -- If doubles that are numbers are compared by their place in an order, and the scores of a set and
  -- -1.0 are numbers, then the search answers with a profile of the set that is for the game and
  -- compatible with the device, and no such profile of the set has a higher score, or the same
  -- score and more samples; or it finds nothing, and no such profile scores above -1.0.
  pub resolve_profile-IsChoice :
      (s : ProfileSet c.Double)
      → IsNumber lowest
      → All (λ p. IsNumber (score c p)) s.items
      → IsChoice s.items (resolve_profile c game_build_hash caps s)
  unfolding resolve_profile
  resolve_profile-IsChoice s bottom numbers = choose s.items _ _ (
      resolve_loop-Standing [] s.items (record { best = none; best_score = lowest }) bottom numbers
        (refl, tt))
