-- ===== src/Fetch/Budget.antt =====
-- How many commands a call of `in_all_threads` of src/thread_pool.rs submits.
use command_executor.Base.{
  ℕ, suc, ◌+◌, ◌≤◌, ◌≡◌, refl, sym, ◌∙◌, ◌⊎◌, inl, inr, List, [], ◌∷◌, ◌++◌, weigh, weigh-append,
  arith, update, update_same, update_other, ℕ_discrete,
}
use command_executor.ThreadPool.{
  ShutdownMode, Command, user, run_in_all_threads, Client, broadcasts, free, waits_for, System,
  submits, broadcast_begins, broadcast_submits, broadcast_waits, barrier_opens, shutdown_wakes,
  Reach, start, later,
}
use command_executor.Fetch.Calls.{of_call, NoClient, NoneSent, Reach-IsNumbered}

read_update {ℓ} :
    {A : Type ℓ} (f : ℕ → A) (j : ℕ) (c x : A) (i : ℕ)
    → update f j c i ≡ x
    → ((j ≡ i) × (c ≡ x)) ⊎ ((¬ (j ≡ i)) × (f i ≡ x))
read_update f j c x i e = elim (ℕ_discrete j i) [
  | yes same ↦ inl (same, sym (update_same f j c) ∙ rw (← same) at e)
  | no other ↦ inr (other, sym (update_other f {i = j} {j = i} c other) ∙ e)
]

own_call : (C : Type 0) (o : ℕ) → of_call {C = C} o (run_in_all_threads o) ≡ 1
own_call C o = ground arith

other_call : (C : Type 0) (o b : ℕ) → ¬ (b ≡ o) → of_call {C = C} b (run_in_all_threads o) ≡ 0
other_call C o b other = ground (arith, other)

module _ {C : Type 0} (tasks : ℕ) where
  -- A call sends no more commands than there are workers, and each call is of one client.
  pub record IsBudgeted (clients : ℕ → Client) (submitted : List (Command C)) : Type 0 where
    pub budget : (j b k : ℕ) → clients j ≡ broadcasts b k → weigh (of_call b) submitted + k ≤ tasks
    pub unique : (i j b k l : ℕ) → clients i ≡ broadcasts b k → clients j ≡ broadcasts b l → i ≡ j
    pub within : (b : ℕ) → weigh (of_call b) submitted ≤ tasks

  -- A command of no call.
  pub plain-IsBudgeted :
      (clients : ℕ → Client) (submitted : List (Command C)) (c : Command C)
      → ((b : ℕ) → of_call b c ≡ 0)
      → IsBudgeted clients submitted
      → IsBudgeted clients (submitted ++ (c ∷ []))
  plain-IsBudgeted clients submitted c plain v = record {
    budget = λ j b k e.
        omega (arith, v.budget j b k e, weigh-append (of_call b) submitted (c ∷ []), plain b);
    unique = v.unique;
    within = λ b. omega (arith, v.within b, weigh-append (of_call b) submitted (c ∷ []), plain b);
  }

  -- A client that is not sending.
  pub silent-IsBudgeted :
      (clients : ℕ → Client) (submitted : List (Command C)) (j : ℕ) (c : Client)
      → ((b k : ℕ) → ¬ (c ≡ broadcasts b k))
      → IsBudgeted clients submitted
      → IsBudgeted (update clients j c) submitted
  silent-IsBudgeted clients submitted j c silent v = record {
    budget = λ i b k e. elim (read_update clients j c (broadcasts b k) i e) [
      | inl here ↦ absurd (silent b k here.1)
      | inr there ↦ v.budget i b k there.1
    ];
    unique = λ i i' b k l e e'. elim (read_update clients j c (broadcasts b k) i e) [
      | inl here ↦ absurd (silent b k here.1)
      | inr there ↦ elim (read_update clients j c (broadcasts b l) i' e') [
        | inl here ↦ absurd (silent b l here.1)
        | inr there' ↦ v.unique i i' b k l there.1 there'.1
      ]
    ];
    within = v.within;
  }

  pub begun-IsBudgeted :
      (clients : ℕ → Client) (submitted : List (Command C)) (j barriers : ℕ)
      → NoClient clients barriers
      → NoneSent barriers submitted
      → IsBudgeted clients submitted
      → IsBudgeted (update clients j (broadcasts barriers tasks)) submitted
  begun-IsBudgeted clients submitted j barriers nobody none v = record {
    budget = λ i b k e. elim (read_update clients j _ (broadcasts b k) i e) [
      | inl here ↦
          let same : barriers ≡ b = let said = here.1 in cc in
          let all : tasks ≡ k = let said = here.1 in cc in
          omega (arith, all, none b (omega (arith, same)))
      | inr there ↦ v.budget i b k there.1
    ];
    unique = λ i i' b k l e e'. elim (read_update clients j _ (broadcasts b k) i e) [
      | inl here ↦
          let same : barriers ≡ b = let said = here.1 in cc in
          elim (read_update clients j _ (broadcasts b l) i' e') [
            | inl here' ↦ sym here.0 ∙ here'.0
            | inr there' ↦ absurd (let made = nobody i' b l there'.1 in omega (arith, made, same))
          ]
      | inr there ↦ elim (read_update clients j _ (broadcasts b l) i' e') [
        | inl here' ↦
            let same : barriers ≡ b = let said = here'.1 in cc in
            absurd (let made = nobody i b k there.1 in omega (arith, made, same))
        | inr there' ↦ v.unique i i' b k l there.1 there'.1
      ]
    ];
    within = v.within;
  }

  pub sent-IsBudgeted :
      (clients : ℕ → Client) (submitted : List (Command C)) (j o k : ℕ)
      → clients j ≡ broadcasts o (suc k)
      → IsBudgeted clients submitted
      → IsBudgeted (update clients j (broadcasts o k)) (submitted ++ (run_in_all_threads o ∷ []))
  sent-IsBudgeted clients submitted j o k e v = record {
    budget = λ i b l e'. elim (read_update clients j _ (broadcasts b l) i e') [
      | inl here ↦
          let same : o ≡ b = let said = here.1 in cc in
          let rest : k ≡ l = let said = here.1 in cc in
          rw (← same, ← rest)
            (omega (
              arith,
              v.budget j o (suc k) e,
              own_call C o,
              weigh-append (of_call o) submitted (run_in_all_threads o ∷ []),
            ))
      | inr there ↦ elim (ℕ_discrete b o) [
        | yes same ↦ absurd (there.0 (v.unique j i o (suc k) l e (rw same at there.1)))
        | no other ↦ omega (
          arith,
          v.budget i b l there.1,
          other_call C o b other,
          weigh-append (of_call b) submitted (run_in_all_threads o ∷ []),
        )
      ]
    ];
    unique = λ i i' b l l' e' e''. elim (read_update clients j _ (broadcasts b l) i e') [
      | inl here ↦ elim (read_update clients j _ (broadcasts b l') i' e'') [
        | inl here' ↦ sym here.0 ∙ here'.0
        | inr there' ↦
            let same : o ≡ b = let said = here.1 in cc in
            absurd (there'.0 (v.unique j i' o (suc k) l' e (rw (← same) at there'.1)))
      ]
      | inr there ↦ elim (read_update clients j _ (broadcasts b l') i' e'') [
        | inl here' ↦
            let same : o ≡ b = let said = here'.1 in cc in
            absurd (there.0 (v.unique j i o (suc k) l e (rw (← same) at there.1)))
        | inr there' ↦ v.unique i i' b l l' there.1 there'.1
      ]
    ];
    within = λ b. elim (ℕ_discrete b o) [
      | yes same ↦ rw same (
          omega (
            arith,
            v.budget j o (suc k) e,
            own_call C o,
            weigh-append (of_call o) submitted (run_in_all_threads o ∷ []),
          ))
      | no other ↦ omega (
        arith,
        v.within b,
        other_call C o b other,
        weigh-append (of_call b) submitted (run_in_all_threads o ∷ []),
      )
    ];
  }

module _ {C X : Type 0} {tasks capacity : ℕ} {mode : ShutdownMode} where
  pub Reach-IsBudgeted :
      {s : System C X} → Reach tasks capacity mode s → IsBudgeted tasks s.clients s.submitted
  Reach-IsBudgeted start = record {
    budget = λ j b k e. absurd (cc);
    unique = λ i j b k l e e'. absurd (cc);
    within = λ b. omega arith;
  }
  Reach-IsBudgeted (later {s} r (submits c ph room)) =
      plain-IsBudgeted tasks s.clients s.submitted (user c) (λ b. refl) (Reach-IsBudgeted r)
  Reach-IsBudgeted (later {s} r (shutdown_wakes ph room)) =
      plain-IsBudgeted tasks s.clients s.submitted Command.empty (λ b. refl) (Reach-IsBudgeted r)
  Reach-IsBudgeted (later {s} r (broadcast_begins j ph e)) =
      let n = Reach-IsNumbered r in
      begun-IsBudgeted tasks s.clients s.submitted j s.barriers n.no_client n.none_sent
        (Reach-IsBudgeted r)
  Reach-IsBudgeted (later {s} r (broadcast_submits j {b = o} {k = k} e room)) =
      sent-IsBudgeted tasks s.clients s.submitted j o k e (Reach-IsBudgeted r)
  Reach-IsBudgeted (later {s} r (broadcast_waits j {b = o} e)) =
      silent-IsBudgeted tasks s.clients s.submitted j (waits_for o) (λ b k h. cc)
        (Reach-IsBudgeted r)
  Reach-IsBudgeted (later {s} r (barrier_opens j e full)) =
      silent-IsBudgeted tasks s.clients s.submitted j free (λ b k h. cc) (Reach-IsBudgeted r)
  Reach-IsBudgeted (later r _) = Reach-IsBudgeted r
