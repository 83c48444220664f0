-- ===== src/RegisterBot/Lines.antt =====
-- Which names a worker of applications/register-bot/src/main.rs writes lines for.
use protanki_protocol_rs.Common.{
  ℕ, zero, suc, ◌+◌, ◌<◌, ◌≡◌, refl, sym, ap, arith, true, Option, none, some, List, [], ◌∷◌, ◌++◌,
  map, ◌⊎◌, inl, inr, length, get_elem?, get_elem?-lt, drop, leb, Bool-cases, Option-cases,
}
use protanki_protocol_rs.Common.Bytes.{Bytes}
use protanki_protocol_rs.RegisterBot.{
  RegisterResult, FileUserNameGenerator, next_username, Line, result_line, error_line, WorkerEnd,
  no_more_names, no_more_proxies, further_attempts, attempt, attempts, worker,
}

abbrev pub name_of : {E : Type 0} → Line E → Bytes
name_of (result_line name result) = name
name_of (error_line name e) = name

-- The names that are still to come.
abbrev pub remaining : FileUserNameGenerator → List Bytes
remaining g = drop g.user_name_index g.user_names

drop-next :
    (xs : List Bytes) (i : ℕ) (x : Bytes)
    → get_elem? xs i ≡ some x
    → drop i xs ≡ x ∷ drop (suc i) xs
drop-next [] i x e = cc e
drop-next (y ∷ xs) zero x e = cc e
drop-next (y ∷ xs) (suc i) x e = drop-next xs i x e

drop-all : (xs : List Bytes) (i : ℕ) → leb (length xs) i ≡ true → drop i xs ≡ []
drop-all [] zero e = refl
drop-all [] (suc i) e = refl
drop-all (x ∷ xs) zero e = ground (arith, e)
drop-all (x ∷ xs) (suc i) e = drop-all xs i (ground (arith, e))

next_lem :
    (g : FileUserNameGenerator)
    → (((next_username g).1 ≡ none) × (remaining g ≡ []))
      ⊎ ((name : Bytes) × ((next_username g).1 ≡ some name)
          × (remaining g ≡ name ∷ remaining (next_username g).0))
unfolding next_username
next_lem g = elim (Bool-cases (leb (length g.user_names) g.user_name_index)) [
  | inl h ↦ inl (rw (h, next_username) refl, drop-all g.user_names g.user_name_index h)
  | inr h ↦
      let (name, e) = get_elem?-lt g.user_names g.user_name_index (ground (arith, h)) in
      inr (
        name,
        rw (h, e, next_username) refl,
        rw (h, next_username) (drop-next g.user_names g.user_name_index name e),
      )
]

module _ {X P W E : Type 0} (next_proxy : X → X × Option P)
    (register_account_loop : P → Bytes → W → W × (E ⊎ RegisterResult)) where
  attempts-name :
      (n : ℕ) (name : Bytes) (x : X) (w : W) (line : Line E)
      → (attempts next_proxy register_account_loop n name x w).2 ≡ some line
      → name_of line ≡ name
  unfolding attempts
  attempts-name zero name x w line e =
      elim (Option-cases (attempt next_proxy register_account_loop name x w).2) [
        | inl h ↦ let g = rw (h, attempts) at e in cc g
        | inr (inr r, h) ↦
            let g : result_line name r ≡ line = cc (rw (h, attempts) at e) in sym (ap name_of g)
        | inr (inl f, h) ↦
            let g : error_line name f ≡ line = cc (rw (h, attempts) at e) in sym (ap name_of g)
      ]
  attempts-name (suc n) name x w line e =
      let tried = attempt next_proxy register_account_loop name x w in
      elim (Option-cases (attempt next_proxy register_account_loop name x w).2) [
        | inl h ↦ let g = rw (h, attempts) at e in cc g
        | inr (inr r, h) ↦
            let g : result_line name r ≡ line = cc (rw (h, attempts) at e) in sym (ap name_of g)
        | inr (inl f, h) ↦ attempts-name n name tried.0 tried.1 line (rw (h, attempts) at e)
      ]

  -- How a worker ends, with the names that it had before it.
  abbrev pub IsWorked : List Bytes → List (Line E) × WorkerEnd → Type 0
  IsWorked names r =
      ((r.1 ≡ no_more_names) × (map name_of r.0 ≡ names))
      ⊎ ((r.1 ≡ no_more_proxies)
          × (left : List Bytes) × (map name_of r.0 ++ left ≡ names)
          × (0 < length left))

  IsWorked-more :
      (name : Bytes) (line : Line E) (names : List Bytes) (r : List (Line E) × WorkerEnd)
      → name_of line ≡ name
      → IsWorked names r
      → IsWorked (name ∷ names) (line ∷ r.0, r.1)
  IsWorked-more name line names r e (inl (h, k)) = inl (h, cc (e, k))
  IsWorked-more name line names r e (inr (h, left, k, l)) = inr (h, left, cc (e, k), l)

  worker_lem :
      (fuel : ℕ) (g : FileUserNameGenerator) (x : X) (w : W)
      → length (remaining g) < fuel
      → IsWorked (remaining g) (worker next_proxy register_account_loop fuel g x w)
  unfolding worker
  worker_lem zero g x w h = absurd (omega (arith, h))
  worker_lem (suc fuel) g x w h = elim (next_lem g) [
    | inl (e, k) ↦ rw (e, worker) (rw k (inl (refl, refl)))
    | inr (name, e, k) ↦
        let tried = attempts next_proxy register_account_loop further_attempts name x w in
        elim (Option-cases
          (attempts next_proxy register_account_loop further_attempts name x w).2) [
            | inl t ↦ rw (e, t, worker) (inr (refl, remaining g, refl, rw k (omega arith)))
            | inr (line, t) ↦
                rw (e, t, worker)
                  (rw k (
                    IsWorked-more name line _ _ (attempts-name further_attempts name x w line t) (
                      worker_lem fuel (next_username g).0 tried.0 tried.1
                        (omega (arith, h, ap length k)))))
          ]
  ]

  -- With fuel for one more than the names: a worker that runs alone ends when there is no more name, having
  -- written exactly one line for each name, in order, or when there is no more proxy; then it has written
  -- one line for each name before the one at which it ended, and none for that one and those after it.
  pub worker-IsWorked :
      (names : List Bytes) (x : X) (w : W)
      → IsWorked names (
          worker next_proxy register_account_loop
            (length names + 1)
            (record { user_names = names; user_name_index = 0 })
            x
            w)
  worker-IsWorked names x w =
      worker_lem (length names + 1) (record { user_names = names; user_name_index = 0 }) x w
        (omega arith)
