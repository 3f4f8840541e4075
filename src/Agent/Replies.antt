-- ===== src/Agent/Replies.antt =====
-- How many messages a client gets: what each handler sends back, whichever branch it takes.
pub mod Handlers
pub mod Runs
use tartarus_nix.Base.{
  ℕ, ◌+◌, ◌≤◌, ◌≡◌, refl, Bool, true, false, Option, none, some, List, [], ◌∷◌, arith,
  if◌then◌else◌,
}
use tartarus_nix.Base.Effects.{
  Outcome, done, raised, Eff, pure, raise, lift, modify, continue, ◌>>=◌, ◌>>◌,
}
use tartarus_nix.Agent.State.{Conn, Event, sent, asked, prompted, notified, Handle}

unfoldable pub replies : List Event → ℕ
replies [] = 0
replies (sent payload ∷ l) = replies l + 1
replies (asked path msg answer ∷ l) = replies l
replies (prompted prompt ok ∷ l) = replies l
replies (notified critical notice ∷ l) = replies l

-- `n` messages more if it returns, and at most `n` more if it raises
abbrev pub Told : {A : Type 0} → ℕ → ℕ → Outcome A → ℕ → Type 0
Told n before (done a) behind = behind ≡ before + n
Told n before raised behind = (before ≤ behind) × (behind ≤ before + n)

pub record Replies {A : Type 0} (n : ℕ) (m : Handle A) : Type 0 where
  pub at : (c : Conn) → Told n (replies c.trace) (m c).0 (replies (m c).1.trace)

module _ {A : Type 0} where
  pub Replies-pure : (a : A) → Replies 0 (pure a)
  Replies-pure a = record { at = λ c. omega arith }

  pub Replies-raise : (n : ℕ) → Replies n (raise {A = A})
  Replies-raise n = record { at = λ c. (omega arith, omega arith) }

  pub Replies-lift : (o : Option A) → Replies 0 (lift o)
  Replies-lift none = record { at = λ c. (omega arith, omega arith) }
  Replies-lift (some a) = record { at = λ c. omega arith }

  pub Replies-if :
      {n : ℕ} (b : Bool) (m k : Handle A)
      → Replies n m
      → Replies n k
      → Replies n (if b then m else k)
  Replies-if true m k rm rk = rm
  Replies-if false m k rm rk = rk

  pub Replies-test :
      {n : ℕ} (b : Conn → Bool) (m k : Handle A)
      → Replies n m
      → Replies n k
      → Replies n (λ c. if b c then m c else k c)
  Replies-test {n} b m k rm rk = record { at = λ c. Replies-if_at n (b c) m k rm rk c }
    where
      Replies-if_at :
          (n : ℕ) (b : Bool) (m k : Handle A)
          → Replies n m
          → Replies n k
          → (c : Conn)
          → Told n
              (replies c.trace)
              (if b then m c else k c).0
              (replies (if b then m c else k c).1.trace)
      Replies-if_at n true m k rm rk c = rm.at c
      Replies-if_at n false m k rm rk c = rk.at c

-- A change of the state that leaves the events alone.
pub Replies-modify : (f : Conn → Conn) → ((c : Conn) → (f c).trace ≡ c.trace) → Replies 0 (modify f)
Replies-modify f same = record { at = λ c. rw same (omega arith) }

module _ {A B : Type 0} where
  continue-replies :
      (a b before : ℕ) (r : Outcome A) (f : A → Handle B) (c : Conn)
      → ((x : A) → Replies b (f x))
      → Told a before r (replies c.trace)
      → Told (a + b) before (continue r f c).0 (replies (continue r f c).1.trace)
  continue-replies a b before raised f c rf h = (h.0, omega arith)
  continue-replies a b before (done x) f c rf h = regroup _ (f x c).0 ((rf x).at c)
    where
      regroup :
          (behind : ℕ) (r : Outcome B)
          → Told b (replies c.trace) r behind
          → Told (a + b) before r behind
      regroup behind raised t = (omega arith, omega arith)
      regroup behind (done y) t = omega arith

  pub Replies-bind :
      (a b : ℕ) (m : Handle A) (f : A → Handle B)
      → Replies a m
      → ((x : A) → Replies b (f x))
      → Replies (a + b) (m >>= f)
  Replies-bind a b m f rm rf = record {
    at = λ c. continue-replies a b (replies c.trace) (m c).0 f (m c).1 rf (rm.at c);
  }

  pub Replies-then :
      (a b : ℕ) (m : Handle A) (k : Handle B) → Replies a m → Replies b k → Replies (a + b) (m >> k)
  Replies-then a b m k rm rk = record {
    at = λ c. continue-replies a b (replies c.trace) (m c).0 (λ _. k) (m c).1 (λ _. rk) (rm.at c);
  }
