-- ===== src/Fetch/Calls.antt =====
-- A worker at the barrier of a call of `in_all_threads` shows that the commands submitted before that call
-- have been taken.
use command_executor.Base.{
  ℕ, suc, ◌+◌, ◌≤◌, ◌<◌, ◌≡◌, refl, sym, ap, ◌∙◌, List, [], ◌∷◌, ◌++◌, append_assoc, append-nil,
  weigh, weigh-append, ◌==◌, if◌then◌else◌, arith, update, update_same, update_other, ℕ_discrete,
}
use command_executor.ThreadPool.{
  ShutdownMode, Command, user, run_in_all_threads, Client, broadcasts, free, waits_for, System,
  submits, broadcast_begins, broadcast_submits, broadcast_waits, barrier_opens, shutdown_wakes,
  Reach, start, later,
}
use command_executor.Fetch.{called}

module _ {C : Type 0} where
  -- 1 for a command of the call with the barrier `b`
  abbrev pub of_call : ℕ → Command C → ℕ
  of_call b (run_in_all_threads o) = if b == o then 1 else 0
  of_call b _ = 0

  -- What was taken holds a command that did not come before, hence all that came before.
  pub taken_before :
      (w v : Command C → ℕ) (before since taken queue : List (Command C))
      → taken ++ queue ≡ before ++ since
      → weigh w before ≡ 0
      → 0 < weigh w taken
      → weigh v before ≤ weigh v taken
  taken_before w v [] since taken queue e none some = omega arith
  taken_before w v (c ∷ before) since [] queue e none some = absurd (omega arith)
  taken_before w v (c ∷ before) since (d ∷ taken) queue e none some =
      let same : d ≡ c = cc in
      let rest : taken ++ queue ≡ before ++ since = cc in
      let now =
        taken_before w v before since taken queue rest (omega arith)
          (let skip = ap w same in omega (arith, skip)) in
      omega (arith, now, ap v same)

-- A client inside a call has a barrier that was made.
abbrev pub NoClient : (ℕ → Client) → ℕ → Type 0
NoClient clients barriers = (j b k : ℕ) → clients j ≡ broadcasts b k → b < barriers

moved-NoClient :
    (clients : ℕ → Client) (barriers more j : ℕ) (c : Client)
    → barriers ≤ more
    → ((b k : ℕ) → c ≡ broadcasts b k → b < more)
    → NoClient clients barriers
    → NoClient (update clients j c) more
moved-NoClient clients barriers more j c grows here h i b k e = elim (ℕ_discrete j i) [
  | yes same ↦ here b k (sym (update_same clients j c) ∙ rw (← same) at e)
  | no other ↦
      omega (arith, grows, h i b k (sym (update_other clients {i = j} {j = i} c other) ∙ e))
]

module _ {C : Type 0} where
  -- A call that has not begun has sent no command.
  abbrev pub NoneSent : ℕ → List (Command C) → Type 0
  NoneSent barriers submitted = (b : ℕ) → barriers ≤ b → weigh (of_call b) submitted ≡ 0

  -- Each call has its place among the commands submitted, before its own.
  abbrev Placed : ℕ → List (Command C) → (ℕ → List (Command C)) → Type 0
  Placed barriers submitted calls =
      (b : ℕ)
      → b < barriers
      → (since : List (Command C)) × (submitted ≡ calls b ++ since)
        × (weigh (of_call b) (calls b) ≡ 0)

  snoc-NoneSent :
      (barriers : ℕ) (submitted : List (Command C)) (c : Command C)
      → ((b : ℕ) → barriers ≤ b → of_call b c ≡ 0)
      → NoneSent barriers submitted
      → NoneSent barriers (submitted ++ (c ∷ []))
  snoc-NoneSent barriers submitted c none h b le =
      omega (arith, weigh-append (of_call b) submitted (c ∷ []), h b le, none b le)

  snoc-Placed :
      (barriers : ℕ) (submitted : List (Command C)) (c : Command C) (calls : ℕ → List (Command C))
      → Placed barriers submitted calls
      → Placed barriers (submitted ++ (c ∷ [])) calls
  snoc-Placed barriers submitted c calls h b lt =
      let (since, e, none) = h b lt in
      (since ++ (c ∷ []), rw e (append_assoc (calls b) since (c ∷ [])), none)

  begun-Placed :
      (barriers : ℕ) (submitted : List (Command C)) (calls : ℕ → List (Command C))
      → NoneSent barriers submitted
      → Placed barriers submitted calls
      → Placed (barriers + 1) submitted (update calls barriers submitted)
  begun-Placed barriers submitted calls none h b lt = elim (ℕ_discrete barriers b) [
    | yes now ↦
        rw (← now, update_same calls barriers submitted)
          ([], sym (append-nil submitted), none barriers (omega arith))
    | no before ↦
        rw (update_other calls {i = barriers} {j = b} submitted before) (h b (omega arith))
  ]

apart : (C : Type 0) (o b : ℕ) → o < b → of_call {C = C} b (run_in_all_threads o) ≡ 0
apart C o b lt = ground arith

module _ {C X : Type 0} {tasks capacity : ℕ} {mode : ShutdownMode} where
  pub record IsNumbered {s : System C X} (r : Reach tasks capacity mode s) : Type 0 where
    pub no_client : NoClient s.clients s.barriers
    pub none_sent : NoneSent s.barriers s.submitted
    pub placed : Placed s.barriers s.submitted (called r)

  pub Reach-IsNumbered : {s : System C X} (r : Reach tasks capacity mode s) → IsNumbered r
  Reach-IsNumbered start = record {
    no_client = λ j b k e. absurd (cc);
    none_sent = λ b le. refl;
    placed = λ b lt. elim lt [ ];
  }
  Reach-IsNumbered (later {s} r (submits c ph room)) =
      let v = Reach-IsNumbered r in
      record {
        no_client = v.no_client;
        none_sent = snoc-NoneSent s.barriers s.submitted (user c) (λ b le. refl) v.none_sent;
        placed = snoc-Placed s.barriers s.submitted (user c) (called r) v.placed;
      }
  Reach-IsNumbered (later {s} r (shutdown_wakes ph room)) =
      let v = Reach-IsNumbered r in
      record {
        no_client = v.no_client;
        none_sent = snoc-NoneSent s.barriers s.submitted Command.empty (λ b le. refl) v.none_sent;
        placed = snoc-Placed s.barriers s.submitted Command.empty (called r) v.placed;
      }
  Reach-IsNumbered (later {s} r (broadcast_begins j ph e)) =
      let v = Reach-IsNumbered r in
      record {
        no_client =
            moved-NoClient s.clients s.barriers (s.barriers + 1) j (broadcasts s.barriers tasks)
              (omega arith) (λ b k h. let same : s.barriers ≡ b = cc in omega arith) v.no_client;
        none_sent = λ b le. v.none_sent b (omega arith);
        placed = begun-Placed s.barriers s.submitted (called r) v.none_sent v.placed;
      }
  Reach-IsNumbered (later {s} r (broadcast_submits j {b = o} {k = k} e room)) =
      let v = Reach-IsNumbered r in
      let made = v.no_client j o (suc k) e in
      record {
        no_client =
            moved-NoClient s.clients s.barriers s.barriers j (broadcasts o k) (omega arith)
              (λ b l h. let same : o ≡ b = cc in omega arith) v.no_client;
        none_sent =
            snoc-NoneSent s.barriers s.submitted (run_in_all_threads o)
              (λ b le. apart C o b (omega arith)) v.none_sent;
        placed = snoc-Placed s.barriers s.submitted (run_in_all_threads o) (called r) v.placed;
      }
  Reach-IsNumbered (later {s} r (broadcast_waits j {b = o} e)) =
      let v = Reach-IsNumbered r in
      record {
        no_client =
            moved-NoClient s.clients s.barriers s.barriers j (waits_for o) (omega arith)
              (λ b k h. absurd (cc)) v.no_client;
        none_sent = v.none_sent;
        placed = v.placed;
      }
  Reach-IsNumbered (later {s} r (barrier_opens j e all)) =
      let v = Reach-IsNumbered r in
      record {
        no_client =
            moved-NoClient s.clients s.barriers s.barriers j free (omega arith)
              (λ b k h. absurd (cc)) v.no_client;
        none_sent = v.none_sent;
        placed = v.placed;
      }
  Reach-IsNumbered (later r _) =
      let v = Reach-IsNumbered r in
      record { no_client = v.no_client; none_sent = v.none_sent; placed = v.placed }
