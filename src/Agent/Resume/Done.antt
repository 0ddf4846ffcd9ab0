-- ===== src/Agent/Resume/Done.antt =====
-- Lists of steps: which are done, which are pending, and that the five differ.
use mastery.Prelude.{◌≡◌, refl, true, false, List, [], ◌∷◌, ◌++◌, arith, All, ◌||◌}
use mastery.Agent.Resume.{
  Step, classify_step, retrieve_step, extract_step, validate_step, store_step, same_step, is_done,
}

pub is_done-append :
    (name : Step) (ss ts : List Step)
    → is_done name (ss ++ ts) ≡ (is_done name ss || is_done name ts)
is_done-append name [] ts = refl
is_done-append name (s ∷ ss) ts = ground (arith, is_done-append name ss ts)

pub same_step_self : (n : Step) → same_step n n ≡ true
same_step_self classify_step = refl
same_step_self retrieve_step = refl
same_step_self extract_step = refl
same_step_self validate_step = refl
same_step_self store_step = refl

pub same_step_lem : (m n : Step) → same_step m n ≡ true → m ≡ n
same_step_lem classify_step classify_step e = refl
same_step_lem retrieve_step retrieve_step e = refl
same_step_lem extract_step extract_step e = refl
same_step_lem validate_step validate_step e = refl
same_step_lem store_step store_step e = refl
same_step_lem m n e = cc

pub found_later :
    (k n : Step) (rest : List Step)
    → same_step k n ≡ false
    → is_done k (n ∷ rest) ≡ true
    → is_done k rest ≡ true
found_later k n rest other m = ground arith

-- Steps that are all different from one another, and none of them done.
abbrev pub Apart : Step → List Step → Type 0
Apart name rest = All (λ m. same_step name m ≡ false) rest

abbrev pub Distinct : List Step → Type 0
Distinct [] = Unit
Distinct (n ∷ rest) = Apart n rest × Distinct rest

abbrev pub Pending : List Step → List Step → Type 0
Pending finished names = All (λ n. is_done n finished ≡ false) names

pub Pending-mark :
    (n : Step) (finished rest : List Step)
    → Apart n rest
    → Pending finished rest
    → Pending (finished ++ (n ∷ [])) rest
Pending-mark n finished [] a p = tt
Pending-mark n finished (m ∷ rest) a p = (
  ground (arith, is_done-append m finished (n ∷ []), a.0, p.0),
  Pending-mark n finished rest a.1 p.1,
)
