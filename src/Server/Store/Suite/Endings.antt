-- ===== src/Server/Store/Suite/Endings.antt =====
-- How a test program ends when the store may fault: the rules for a bind, for `unwrap` and for an
-- expected error.
use longhaul.Base.{
  String, ◌≡◌, refl, sym, inl, inr, Bool, true, false, arith, Result, ok, err, map_err,
  ok_injective,
}
use mathlib.Core.Path.{subst}
use longhaul.Base.Exec.{Exec, ◌>>◌, ◌>>=◌, continue}
use longhaul.Core.Tasks.{
  same_status, TaskStatus, working, input_required, completed, failed, cancelled,
}
use longhaul.Server.Store.{
  SqliteError, StoreError, not_found, illegal_transition, sqlite, lock_poisoned,
}
use longhaul.Server.Store.Contract.{View, Meets, IsFault}
use longhaul.Server.Store.Suite.{Panic, unwrapped, unexpected, expected}

-- The store answered with a fault where the test unwraps, or expects another error.
abbrev pub HasFaulted : Panic → Type 0
HasFaulted (unwrapped lock_poisoned) = Unit
HasFaulted (unwrapped (sqlite e)) = Unit
HasFaulted (unexpected lock_poisoned) = Unit
HasFaulted (unexpected (sqlite e)) = Unit
HasFaulted _ = ⊥

-- A test came to its end with `Q`, or panicked on a fault of the store.
abbrev pub Ends : {S A : Type 0} → (A → S → Type 0) → Result A Panic × S → Type 0
Ends Q (ok a, s) = Q a s
Ends Q (err p, s) = HasFaulted p

abbrev pub Passes : {S A : Type 0} → Result A Panic × S → Type 0
Passes r = Ends (λ _ _. Unit {0}) r

pub same_status_refl : (st : TaskStatus) → same_status st st ≡ true
same_status_refl working = refl
same_status_refl input_required = refl
same_status_refl completed = refl
same_status_refl failed = refl
same_status_refl cancelled = refl

IsFault-unwrapped :
    (A : Type 0) (e : StoreError) → IsFault {A = A} (err e) → HasFaulted (unwrapped e)
IsFault-unwrapped A lock_poisoned f = tt
IsFault-unwrapped A (sqlite e) f = tt
IsFault-unwrapped A (not_found id) f = f
IsFault-unwrapped A (illegal_transition from to) f = f

-- A test of errors that lets no fault pass.
abbrev Rejects : (StoreError → Bool) → Type 0
Rejects test = (test lock_poisoned ≡ false) × ((m : SqliteError) → test (sqlite m) ≡ false)

module _ {S A B : Type 0} (P : A → S → Type 0) (Q : B → S → Type 0) where
  continue-Ends :
      (r : Result A Panic × S) (f : A → Exec S Panic B)
      → Ends P r
      → ((a : A) (s : S) → P a s → Ends Q (f a s))
      → Ends Q (continue r.0 f r.1)
  continue-Ends (ok a, s) f h k = k a s h
  continue-Ends (err p, s) f h k = h

  pub bind-Ends :
      (m : Exec S Panic A) (f : A → Exec S Panic B) (s : S)
      → Ends P (m s)
      → ((a : A) (s' : S) → P a s' → Ends Q (f a s'))
      → Ends Q ((m >>= f) s)
  bind-Ends m f s h k = continue-Ends (m s) f h k

-- one step of a test, with what holds of the state after it
pub then_Passes :
    {S A B : Type 0} (P : S → Type 0) (m : Exec S Panic A) (n : Exec S Panic B) (s : S)
    → Ends (λ _ s'. P s') (m s)
    → ((s' : S) → P s' → Passes (n s'))
    → Passes ((m >> n) s)
then_Passes P m n s h k = bind-Ends (λ _ s'. P s') (λ _ _. Unit) m (λ _. n) s h (λ _ s'. k s')

pub Ends-Passes :
    {S A : Type 0} (P : S → Type 0) (r : Result A Panic × S) → Ends (λ _ s. P s) r → Passes r
Ends-Passes P (ok a, s) h = tt
Ends-Passes P (err p, s) h = h

-- what is known of the result, dropped
pub forget :
    {S A : Type 0} (R : A → S → Type 0) (P : S → Type 0) (r : Result A Panic × S)
    → Ends (λ a s. R a s × P s) r
    → Ends (λ _ s. P s) r
forget R P (ok a, s) (_, h) = h
forget R P (err p, s) h = h

module _ {S : Type 0} (view : S → View) where
  pub unwrap-Ends :
      {A : Type 0} {s : S} (r : Result A StoreError × S) (a : A) (v : View) (Q : A → S → Type 0)
      → Meets view s r (ok a, v)
      → ((s' : S) → ((k : String) → view s' k ≡ v k) → Q a s')
      → Ends Q (map_err unwrapped r.0, r.1)
  unwrap-Ends (ok b, s') a v Q (inl (q, same)) k =
      subst (λ x. Q x s') (sym (ok_injective q)) (k s' same)
  unwrap-Ends (ok b, s') a v Q (inr (f, _)) k = absurd f
  unwrap-Ends (err e, s') a v Q (inl (q, _)) k = cc
  unwrap-Ends {A} (err e, s') a v Q (inr (f, _)) k = IsFault-unwrapped A e f

  pub fails_with-Ends :
      {A : Type 0} {s : S} (test : StoreError → Bool) (r : Result A StoreError × S) (e : StoreError)
      (v : View) (Q : Unit {0} → S → Type 0)
      → Rejects test
      → test e ≡ true
      → Meets view s r (err e, v)
      → ((s' : S) → ((k : String) → view s' k ≡ v k) → Q tt s')
      → Ends Q (expected test r.0, r.1)
  fails_with-Ends test (ok b, s') e v Q _ _ (inl (q, _)) k = cc
  fails_with-Ends test (ok b, s') e v Q _ _ (inr (f, _)) k = absurd f
  fails_with-Ends test (err x, s') e v Q _ h (inl (q, same)) k =
      let passes : test x ≡ true = ground (arith, h, q) in rw passes (k s' same)
  fails_with-Ends test (err lock_poisoned, s') e v Q (locks, _) _ (inr _) k = rw locks tt
  fails_with-Ends test (err (sqlite m), s') e v Q (_, engines) _ (inr _) k = rw (engines m) tt
  fails_with-Ends test (err (not_found id), s') e v Q _ _ (inr (f, _)) k = absurd f
  fails_with-Ends test (err (illegal_transition from to), s') e v Q _ _ (inr (f, _)) k = absurd f
