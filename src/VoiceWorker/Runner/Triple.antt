-- ===== src/VoiceWorker/Runner/Triple.antt =====
-- Triples for actions: what holds after a value and what holds after an exception.
use nyc_pa_aws_gitops.Prelude.{◌≡◌, refl}
use nyc_pa_aws_gitops.Prelude.Results.{Result, ok, err}
use nyc_pa_aws_gitops.VoiceWorker.Runner.State.{Failure, Run, Action, next, ◌>>=◌, tool}

abbrev pub Outcome :
    {A : Type 0} → (A → Run → Type 0) → (Run → Type 0) → Result Failure A → Run → Type 0
Outcome Q E (ok a) r = Q a r
Outcome Q E (err e) r = E r

pub record Triple {A : Type 0} (P : Run → Type 0) (m : Action A) (Q : A → Run → Type 0)
    (E : Run → Type 0) : Type 0 where
  pub holds : (r : Run) → P r → Outcome Q E (m r).0 (m r).1

Outcome-post :
    {A : Type 0} (E : Run → Type 0) {Q R : A → Run → Type 0} (m : Result Failure A) (r : Run)
    → ((a : A) (r : Run) → Q a r → R a r)
    → Outcome Q E m r
    → Outcome R E m r
Outcome-post E (ok a) r f h = f a r h
Outcome-post E (err e) r f h = h

module _ {A : Type 0} {E : Run → Type 0} where
  Outcome-next :
      {B : Type 0} (Q : A → Run → Type 0) (R : B → Run → Type 0) (m : Result Failure A) (r : Run)
      (f : A → Action B)
      → Outcome Q E m r
      → ((a : A) → Triple (Q a) (f a) R E)
      → Outcome R E (next m r f).0 (next m r f).1
  Outcome-next Q R (ok a) r f h k = (k a).holds r h
  Outcome-next Q R (err e) r f h k = h

  pub Triple->>= :
      {B : Type 0} {P : Run → Type 0} {Q : A → Run → Type 0} {R : B → Run → Type 0} {m : Action A}
      {f : A → Action B}
      → Triple P m Q E
      → ((a : A) → Triple (Q a) (f a) R E)
      → Triple P (m >>= f) R E
  Triple->>= {B} {P} {Q} {R} {m} {f} h k = record {
    holds = (λ r p. Outcome-next Q R (m r).0 (m r).1 f (h.holds r p) k);
  }

  -- A call outside keeps what holds, and its value is then known.
  pub Triple-tool :
      {P : Run → Type 0} (m : Result Failure A)
      → ((r : Run) → P r → E r)
      → Triple P (tool m) (λ a r. P r × (m ≡ ok a)) E
  Triple-tool (ok a) w = record { holds = (λ r p. (p, refl)) }
  Triple-tool (err e) w = record { holds = (λ r p. w r p) }

  -- To use a fact that does not depend on the state.
  pub with_fact :
      {P : Run → Type 0} {F : Type 0} {m : Action A} {R : A → Run → Type 0}
      → (F → Triple P m R E)
      → Triple (λ r. P r × F) m R E
  with_fact k = record { holds = (λ r p. (k p.1).holds r p.0) }

  pub Triple-post :
      {P : Run → Type 0} {m : Action A} {Q R : A → Run → Type 0}
      → Triple P m Q E
      → ((a : A) (r : Run) → Q a r → R a r)
      → Triple P m R E
  Triple-post {P} {m} {Q} {R} h f = record {
    holds = (λ r p. Outcome-post E (m r).0 (m r).1 f (h.holds r p));
  }
