-- ===== src/Plans/Callback.antt =====
-- `_fire_callback` of core/planning.py with its URL check. The host name that `urlparse` finds and the answers
-- to the requests are parameters; the pauses are left out.
use package.text.Mathlib.Text.{starts_with}
use ritesmith.Prelude.{
  ℕ, suc, ◌+◌, ◌≤◌, String, ◌≡◌, refl, inl, inr, Bool, true, false, not, ◌||◌, Option, none, some,
  List, [], ◌∷◌, arith, elem, ltb, length, if◌then◌else◌, Bool-cases,
}

abbrev private_url_prefixes : List String
private_url_prefixes =
    "http://localhost" ∷ "https://localhost" ∷ "http://127." ∷ "https://127." ∷ "http://10."
    ∷ "https://10." ∷ "http://172.16." ∷ "https://172.16." ∷ "http://192.168." ∷ "https://192.168."
    ∷ "http://0.0.0.0" ∷ "https://0.0.0.0" ∷ "http://[::1]" ∷ "https://[::1]" ∷ []

-- `any(url.startswith(p) for p in prefixes)`
unfoldable pub starts_with_any : String → List String → Bool
starts_with_any url [] = false
starts_with_any url (p ∷ ps) = starts_with url p || starts_with_any url ps

-- `urlparse(url).hostname in set(allowed_hosts)`, where there are allowed hosts.
unfoldable pub host_allowed : Option String → List String → Bool
host_allowed none hosts = false
host_allowed (some h) hosts = elem h hosts

unfoldable pub is_safe_callback_url : (String → Option String) → String → List String → Bool
unfolding starts_with_any host_allowed
is_safe_callback_url hostname url allowed_hosts =
    if not (starts_with_any url ("http://" ∷ "https://" ∷ []))
    then false
    else if host_allowed (hostname url) allowed_hosts
    then true
    else not (starts_with_any url private_url_prefixes)

abbrev pub callback_attempts : ℕ
callback_attempts = 3

-- The answers to the requests that are made: the status code, or none for an exception. `answer n` is
-- what attempt `n` gets. A code below 500 ends the loop.
unfoldable pub after_answer : List (Option ℕ) → Option ℕ → List (Option ℕ)
after_answer more none = none ∷ more
after_answer more (some code) = if ltb code 500 then some code ∷ [] else some code ∷ more

unfoldable pub attempts : (ℕ → Option ℕ) → ℕ → ℕ → List (Option ℕ)
unfolding after_answer
attempts answer ℕ.zero n = []
attempts answer (suc left) n = after_answer (attempts answer left (n + 1)) (answer n)

unfoldable pub fire_callback :
    (String → Option String) → (ℕ → Option ℕ) → String → List String → List (Option ℕ)
unfolding is_safe_callback_url attempts
fire_callback hostname answer url allowed_hosts =
    if not (is_safe_callback_url hostname url allowed_hosts)
    then []
    else attempts answer callback_attempts 1

-- An answer after which the callback is sent again.
abbrev pub Failed : Option ℕ → Type 0
Failed none = Unit {0}
Failed (some code) = ltb code 500 ≡ false

-- All but the last answer failed.
abbrev pub Retried : List (Option ℕ) → Type 0
Retried [] = Unit {0}
Retried (a ∷ []) = Unit {0}
Retried (a ∷ b ∷ rest) = Failed a × Retried (b ∷ rest)

Retried-cons :
    (a : Option ℕ) (rest : List (Option ℕ)) → Failed a → Retried rest → Retried (a ∷ rest)
Retried-cons a [] f r = tt
Retried-cons a (b ∷ rest) f r = (f, r)

after_answer-Retried :
    (more : List (Option ℕ)) (a : Option ℕ) (left : ℕ)
    → length more ≤ left
    → Retried more
    → (length (after_answer more a) ≤ suc left) × Retried (after_answer more a)
unfolding after_answer
after_answer-Retried more none left short r = (omega (arith, short), Retried-cons none more tt r)
after_answer-Retried more (some code) left short r = elim (Bool-cases (ltb code 500)) [
  | inl taken ↦ rw taken (omega arith, tt)
  | inr again ↦ rw again (omega (arith, short), Retried-cons (some code) more again r)
]

attempts-Retried :
    (answer : ℕ → Option ℕ) (left n : ℕ)
    → (length (attempts answer left n) ≤ left) × Retried (attempts answer left n)
unfolding attempts
attempts-Retried answer ℕ.zero n = (omega arith, tt)
attempts-Retried answer (suc left) n =
    let (short, retried) = attempts-Retried answer left (n + 1) in
    after_answer-Retried (attempts answer left (n + 1)) (answer n) left short retried

-- A callback is sent at most three times, and again only after an exception or a code of 500 or more; to a URL
-- that is not safe it is not sent at all.
pub fire_callback-Retried :
    (hostname : String → Option String) (answer : ℕ → Option ℕ) (url : String) (hosts : List String)
    → (length (fire_callback hostname answer url hosts) ≤ 3)
      × Retried (fire_callback hostname answer url hosts)
      × (is_safe_callback_url hostname url hosts ≡ false
          → fire_callback hostname answer url hosts ≡ [])
unfolding fire_callback
fire_callback-Retried hostname answer url hosts =
    elim (Bool-cases (is_safe_callback_url hostname url hosts)) [
      | inl safe ↦ rw safe (
        (attempts-Retried answer 3 1).0,
        (attempts-Retried answer 3 1).1,
        λ e. absurd (ground arith),
      )
      | inr unsafe ↦ rw unsafe (omega arith, tt, λ e. refl)
    ]
