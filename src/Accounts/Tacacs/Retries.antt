-- ===== src/Accounts/Tacacs/Retries.antt =====
-- The attempts of `_tacacs_auth`: the first that is answered decides.
use zas.Prelude.{
  ℕ, zero, suc, ◌+◌, ◌<◌, max, ◌≡◌, refl, Bool, false, Option, List, arith, ◌∙◌, ok, err,
}
use zas.Text.{Text}
use zas.Accounts.Tacacs.{Attempt, NetError, connection_error, attempt, attempts, blank, tacacs_auth}

-- the attempt ends with an error of the network or the client
abbrev pub Fails : Attempt → Type 0
Fails a = (e : NetError) × (attempt a ≡ err e)

attempts-ok :
    (client : ℕ → Attempt) (k n : ℕ) (e : NetError) {answer : Bool × List Text}
    → attempt (client k) ≡ ok answer
    → attempts client k (suc n) e ≡ ok answer
unfolding attempts
attempts-ok client k n e h = rw (h, attempts)

attempts-err :
    (client : ℕ → Attempt) (k n : ℕ) (e : NetError) {e' : NetError}
    → attempt (client k) ≡ err e'
    → attempts client k (suc n) e ≡ attempts client (k + 1) n e'
unfolding attempts
attempts-err client k n e h = rw (h, attempts)

later :
    (client : ℕ → Attempt) (k j : ℕ)
    → ((i : ℕ) → i < suc j → Fails (client (k + i)))
    → (i : ℕ) → i < j
    → Fails (client (k + 1 + i))
later client k j before i lt =
    let same : k + suc i ≡ k + 1 + i = omega arith in rw (← same) (before (suc i) (omega arith))

attempts-answer :
    (client : ℕ → Attempt) (j n k : ℕ) (e : NetError) (answer : Bool × List Text)
    → j < n
    → ((i : ℕ) → i < j → Fails (client (k + i)))
    → attempt (client (k + j)) ≡ ok answer
    → attempts client k n e ≡ ok answer
attempts-answer client j zero k e answer lt before now = absurd (omega arith)
attempts-answer client zero (suc n) k e answer lt before now =
    let same : k + 0 ≡ k = omega arith in attempts-ok client k n e (rw same at now)
attempts-answer client (suc j) (suc n) k e answer lt before now =
    let here : k + 0 ≡ k = omega arith in
    let next : k + suc j ≡ k + 1 + j = omega arith in
    let (e', fails) = before 0 (omega arith) in
    attempts-err client k n e (rw here at fails)
    ∙ attempts-answer client j n (k + 1) e' answer (omega arith) (later client k j before)
        (rw next at now)

attempts-fail :
    (client : ℕ → Attempt) (n k : ℕ) (e : NetError)
    → ((i : ℕ) → i < n → Fails (client (k + i)))
    → (last : NetError) × (attempts client k n e ≡ err last)
attempts-fail client zero k e before = (e, unfold attempts in refl)
attempts-fail client (suc n) k e before =
    let here : k + 0 ≡ k = omega arith in
    let (e', fails) = before 0 (omega arith) in
    let (last, rest) = attempts-fail client n (k + 1) e' (later client k n before) in
    (last, attempts-err client k n e (rw here at fails) ∙ rest)

module _ (client : ℕ → Attempt) (host secret : Option Text) (retries : ℕ)
    (has_host : blank host ≡ false) (has_secret : blank secret ≡ false) where
  tacacs_auth_lem :
      tacacs_auth client host secret retries ≡ attempts client 0 (max 1 retries) connection_error
  tacacs_auth_lem = unfold tacacs_auth in rw (has_host, has_secret) refl

  -- With a host and a secret configured: where an attempt within the `max 1 retries` that are allowed is
  -- answered and all before it failed, its answer is the result, be it an accept or a deny.
  pub tacacs_auth-answer :
      (j : ℕ) (answer : Bool × List Text)
      → j < max 1 retries
      → ((i : ℕ) → i < j → Fails (client i))
      → attempt (client j) ≡ ok answer
      → tacacs_auth client host secret retries ≡ ok answer
  tacacs_auth-answer j answer lt before now =
      tacacs_auth_lem
      ∙ attempts-answer client j (max 1 retries) 0 connection_error answer lt
          (λ i h. let same : 0 + i ≡ i = omega arith in rw same (before i h))
          (let same : 0 + j ≡ j = omega arith in rw same now)

  pub tacacs_auth-fail :
      ((i : ℕ) → i < max 1 retries → Fails (client i))
      → (last : NetError) × (tacacs_auth client host secret retries ≡ err last)
  tacacs_auth-fail before =
      let (last, h) =
        attempts-fail client (max 1 retries) 0 connection_error
          (λ i h. let same : 0 + i ≡ i = omega arith in rw same (before i h)) in
      (last, tacacs_auth_lem ∙ h)
