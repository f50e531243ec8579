-- ===== src/Netguard/AuthLimiter/Throttling.antt =====
-- The limiter of internal/netguard/netguard.go against the history of its calls.
use xsync.Prelude.{
  ℕ, suc, ◌&&◌, ◌+◌, ◌≤◌, ◌≡◌, refl, sym, subst, ◌∙◌, ap, Bool, true, false, ◌||◌, List, [], ◌∷◌,
  ◌++◌, ◌==◌, ltb, leb, length, if◌then◌else◌, if_intro, if_both, inl, inr, Bool-cases, arith, ◌%◌,
  ◌^◌,
}
use mathlib.Core.List.{append-nil, append_assoc}
use xsync.Prelude.Bytes.{Bytes, bytes_eq, bytes_eq_iff}
use xsync.Prelude.Assoc.{Assoc, lookup, insert, remove, lookup-insert, lookup-remove}
use xsync.Netguard.AuthLimiter.{
  AuthLimiter, new_auth_limiter, fails_of, recent, prune, allow, prune_all, fail, Call, asks,
  fails_to, answer, answer_all,
}

-- All failures of an address in a history, whether they still count or not.
abbrev pub failed_at : Bytes → List (Call × ℕ) → List ℕ
failed_at ip [] = []
failed_at ip ((asks j, t) ∷ cs) = failed_at ip cs
failed_at ip ((fails_to j, t) ∷ cs) =
    let rest = failed_at ip cs in if bytes_eq j ip then t ∷ rest else rest

-- Those that are less than a minute old.
abbrev pub failures_within_minute : Bytes → ℕ → List (Call × ℕ) → ℕ
failures_within_minute ip now [] = 0
failures_within_minute ip now ((asks j, t) ∷ cs) = failures_within_minute ip now cs
failures_within_minute ip now ((fails_to j, t) ∷ cs) =
    let n = failures_within_minute ip now cs in
    if bytes_eq j ip && ltb now (t + 60000000000) then suc n else n

-- No call is before the one that precedes it.
abbrev pub InTime : ℕ → List (Call × ℕ) → Type 0
InTime t [] = Unit {0}
InTime t ((c, now) ∷ cs) = (t ≤ now) × InTime now cs

recent-recent :
    (w now later : ℕ) (l : List ℕ)
    → now ≤ later
    → recent w later (recent w now l) ≡ recent w later l
unfolding recent
recent-recent w now later [] h = refl
recent-recent w now later (t ∷ l) h = ground (arith, recent-recent w now later l h)

recent-append :
    (w now : ℕ) (l m : List ℕ) → recent w now (l ++ m) ≡ recent w now l ++ recent w now m
unfolding recent
recent-append w now [] m = refl
recent-append w now (t ∷ l) m = ground (arith, recent-append w now l m)

prune-list :
    (a : AuthLimiter) (ip : Bytes) (now : ℕ)
    → (prune a ip now).1 ≡ recent a.window now (fails_of a.fails ip)
unfolding prune
prune-list a ip now = ground arith

prune-window : (a : AuthLimiter) (ip : Bytes) (now : ℕ) → (prune a ip now).0.window ≡ a.window
unfolding prune
prune-window a ip now = ground arith

prune-budget : (a : AuthLimiter) (ip : Bytes) (now : ℕ) → (prune a ip now).0.budget ≡ a.budget
unfolding prune
prune-budget a ip now = ground arith

prune-fails :
    (a : AuthLimiter) (ip j : Bytes) (now : ℕ)
    → fails_of (prune a ip now).0.fails j
      ≡ (if bytes_eq ip j then recent a.window now (fails_of a.fails ip) else fails_of a.fails j)
unfolding prune fails_of
prune-fails a ip j now = go (recent a.window now (fails_of a.fails ip))
  where
    go :
        (r : List ℕ)
        → (let p : AuthLimiter × List ℕ = elim r [
          | [] ↦ (record a { fails = remove ip a.fails }, [])
          | t ∷ l ↦ (record a { fails = insert ip (t ∷ l) a.fails }, t ∷ l)
        ] in
            fails_of p.0.fails j)
          ≡ (if bytes_eq ip j then r else fails_of a.fails j)
    go [] = ground (arith, lookup-remove ip j a.fails)
    go (t ∷ l) = ground (arith, lookup-insert ip j (t ∷ l) a.fails)

-- From `t` on, the limiter counts what the history `h` has.
record Knows (w b t : ℕ) (h : Bytes → List ℕ) (a : AuthLimiter) : Type 0 where
  window : a.window ≡ w
  budget : a.budget ≡ b
  counts :
      (ip : Bytes) (now : ℕ) → t ≤ now → recent w now (fails_of a.fails ip) ≡ recent w now (h ip)

prune-Knows :
    (w b t : ℕ) (h : Bytes → List ℕ) (a : AuthLimiter) (ip : Bytes) (now : ℕ)
    → Knows w b t h a
    → t ≤ now
    → Knows w b now h (prune a ip now).0
prune-Knows w b t h a ip now k le = record {
  window = prune-window a ip now ∙ k.window;
  budget = prune-budget a ip now ∙ k.budget;
  counts = λ j later le'.
      ap (recent w later) (prune-fails a ip j now)
      ∙ if_intro (λ (l : List ℕ). recent w later l ≡ recent w later (h j)) (bytes_eq ip j)
          (λ e.
            subst
              (λ i.
                recent w later (recent a.window now (fails_of a.fails ip)) ≡ recent w later (h i))
              ((bytes_eq_iff ip j).0 e)
              (ap (λ x. recent w later (recent x now (fails_of a.fails ip))) k.window
                ∙ recent-recent w now later (fails_of a.fails ip) le'
                ∙ k.counts ip later (omega (arith, le, le'))))
          (λ e. k.counts j later (omega (arith, le, le')));
}

prune_all-Knows :
    (w b t : ℕ) (h : Bytes → List ℕ) (a : AuthLimiter) (now : ℕ) (m : Assoc (List ℕ))
    → Knows w b t h a
    → t ≤ now
    → Knows w b now h (prune_all a now m)
unfolding prune_all
prune_all-Knows w b t h a now [] k le = record {
  window = k.window;
  budget = k.budget;
  counts = λ ip later le'. k.counts ip later (omega (arith, le, le'));
}
prune_all-Knows w b t h a now ((ip, l) ∷ m) k le =
    prune_all-Knows w b now h (prune a ip now).0 now m (prune-Knows w b t h a ip now k le)
      (omega arith)

-- The history with one more failure.
abbrev after_failure : (Bytes → List ℕ) → Bytes → ℕ → Bytes → List ℕ
after_failure h ip now j = h j ++ (if bytes_eq ip j then now ∷ [] else [])

fails_of-insert :
    (ip j : Bytes) (l : List ℕ) (m : Assoc (List ℕ))
    → fails_of (insert ip l m) j ≡ (if bytes_eq ip j then l else fails_of m j)
unfolding fails_of
fails_of-insert ip j l m = ground (arith, lookup-insert ip j l m)

-- What a failure is added to is what the table has.
prune-own :
    (a : AuthLimiter) (ip : Bytes) (now : ℕ)
    → fails_of (prune a ip now).0.fails ip ≡ (prune a ip now).1
prune-own a ip now =
    ground (arith, prune-fails a ip ip now, prune-list a ip now, bytes_eq_iff ip ip)

-- The table with the new failure of `ip`.
added-Knows :
    (w b t : ℕ) (h : Bytes → List ℕ) (a : AuthLimiter) (ip : Bytes) (now : ℕ)
    → Knows w b t h a
    → t ≤ now
    → (let p = prune a ip now in
        Knows w b now
          (after_failure h ip now)
          (record p.0 { fails = insert ip (p.1 ++ now ∷ []) p.0.fails }))
added-Knows w b t h a ip now k le =
    let p = prune a ip now in
    let k' = prune-Knows w b t h a ip now k le in
    record {
      window = k'.window;
      budget = k'.budget;
      counts = λ j later le'.
          ap (recent w later) (fails_of-insert ip j (p.1 ++ now ∷ []) p.0.fails)
          ∙ if_both (λ (l m : List ℕ). recent w later l ≡ recent w later (h j ++ m)) (bytes_eq ip j)
              (λ e.
                recent-append w later p.1 (now ∷ [])
                ∙ ap (λ l. recent w later l ++ recent w later (now ∷ []))
                    (sym (prune-own a ip now) ∙ ap (fails_of p.0.fails) ((bytes_eq_iff ip j).0 e))
                ∙ ap (λ l. l ++ recent w later (now ∷ [])) (k'.counts j later le')
                ∙ sym (recent-append w later (h j) (now ∷ [])))
              (λ e. k'.counts j later le' ∙ ap (recent w later) (sym (append-nil (h j))));
    }

fail-Knows :
    (w b t : ℕ) (h : Bytes → List ℕ) (a : AuthLimiter) (ip : Bytes) (now : ℕ)
    → (b == 0) ≡ false
    → Knows w b t h a
    → t ≤ now
    → Knows w b now (after_failure h ip now) (fail a ip now)
unfolding fail
fail-Knows w b t h a ip now nz k le =
    let counted : AuthLimiter = record a { failures = (a.failures + 1) % 2 ^ 64 } in
    let same : Knows w b t h counted = record {
      window = k.window;
      budget = k.budget;
      counts = k.counts;
    } in
    let p = prune counted ip now in
    let added : AuthLimiter = record p.0 { fails = insert ip (p.1 ++ now ∷ []) p.0.fails } in
    let g : Knows w b now (after_failure h ip now) added =
      added-Knows w b t h counted ip now same le in
    if_intro (Knows w b now (after_failure h ip now)) (a.budget == 0) (λ e. cc (e, nz, k.budget))
      (λ _.
        if_intro (Knows w b now (after_failure h ip now)) (ltb 100000 (length added.fails))
          (λ _.
            prune_all-Knows w b now (after_failure h ip now) added now added.fails g (omega arith))
          (λ _. g))

allow-Knows :
    (w b t : ℕ) (h : Bytes → List ℕ) (a : AuthLimiter) (ip : Bytes) (now : ℕ)
    → Knows w b t h a
    → t ≤ now
    → Knows w b now h (allow a ip now).0
unfolding allow
allow-Knows w b t h a ip now k le =
    let k' = prune-Knows w b t h a ip now k le in
    let P : AuthLimiter × Bool → Type 0 = λ r. Knows w b now h r.0 in
    if_intro P (a.budget == 0)
      (λ _. record {
        window = k.window;
        budget = k.budget;
        counts = λ j later le'. k.counts j later (omega (arith, le, le'));
      })
      (λ _.
        if_intro P (leb a.budget (length (prune a ip now).1))
          (λ _. record { window = k'.window; budget = k'.budget; counts = k'.counts }) (λ _. k'))

Knows-ext :
    (w b t : ℕ) (h g : Bytes → List ℕ) (a : AuthLimiter)
    → ((ip : Bytes) → h ip ≡ g ip)
    → Knows w b t h a
    → Knows w b t g a
Knows-ext w b t h g a e k = record {
  window = k.window;
  budget = k.budget;
  counts = λ ip now le. k.counts ip now le ∙ ap (recent w now) (e ip);
}

after_failure-failed_at :
    (h : Bytes → List ℕ) (ip : Bytes) (now : ℕ) (cs : List (Call × ℕ)) (j : Bytes)
    → after_failure h ip now j ++ failed_at j cs ≡ h j ++ failed_at j ((fails_to ip, now) ∷ cs)
after_failure-failed_at h ip now cs j =
    if_both (λ (l m : List ℕ). (h j ++ l) ++ failed_at j cs ≡ h j ++ m) (bytes_eq ip j)
      (λ e. append_assoc (h j) (now ∷ []) (failed_at j cs))
      (λ e. ap (λ l. l ++ failed_at j cs) (append-nil (h j)))

-- The time of the last call.
abbrev last_time : ℕ → List (Call × ℕ) → ℕ
last_time t [] = t
last_time t ((c, now) ∷ cs) = last_time now cs

InTime-append :
    (t : ℕ) (cs : List (Call × ℕ)) (c : Call) (now : ℕ)
    → InTime t (cs ++ (c, now) ∷ [])
    → InTime t cs × (last_time t cs ≤ now)
InTime-append t [] c now h = (tt, h.0)
InTime-append t ((d, at) ∷ cs) c now h =
    let (k, le) = InTime-append at cs c now h.1 in ((h.0, k), le)

answer_all-Knows :
    (w b t : ℕ) (h : Bytes → List ℕ) (a : AuthLimiter) (cs : List (Call × ℕ))
    → (b == 0) ≡ false
    → InTime t cs
    → Knows w b t h a
    → Knows w b (last_time t cs) (λ ip. h ip ++ failed_at ip cs) (answer_all a cs)
unfolding answer_all answer
answer_all-Knows w b t h a [] nz times k =
    Knows-ext w b t h (λ ip. h ip ++ []) a (λ ip. sym (append-nil (h ip))) k
answer_all-Knows w b t h a ((asks ip, now) ∷ cs) nz times k =
    answer_all-Knows w b now h (allow a ip now).0 cs nz times.1
      (allow-Knows w b t h a ip now k times.0)
answer_all-Knows w b t h a ((fails_to ip, now) ∷ cs) nz times k =
    Knows-ext w b (last_time now cs) (λ j. after_failure h ip now j ++ failed_at j cs)
      (λ j. h j ++ failed_at j ((fails_to ip, now) ∷ cs)) (answer_all (fail a ip now) cs)
      (after_failure-failed_at h ip now cs)
      (answer_all-Knows w b now (after_failure h ip now) (fail a ip now) cs nz times.1
        (fail-Knows w b t h a ip now nz k times.0))

answer-budget :
    (a : AuthLimiter) (c : Call) (now : ℕ)
    → (a.budget == 0) ≡ true
    → (answer a (c, now)).budget ≡ a.budget
unfolding answer allow fail
answer-budget a (asks ip) now e =
    if_intro (λ (r : AuthLimiter × Bool). r.0.budget ≡ a.budget) (a.budget == 0) (λ _. refl)
      (λ f. cc (e, f))
answer-budget a (fails_to ip) now e =
    if_intro (λ (r : AuthLimiter). r.budget ≡ a.budget) (a.budget == 0) (λ _. refl) (λ f. cc (e, f))

answer_all-budget :
    (a : AuthLimiter) (cs : List (Call × ℕ))
    → (a.budget == 0) ≡ true
    → (answer_all a cs).budget ≡ a.budget
unfolding answer_all
answer_all-budget a [] e = refl
answer_all-budget a ((c, now) ∷ cs) e =
    let same = answer-budget a c now e in
    answer_all-budget (answer a (c, now)) cs (ap (λ n. n == 0) same ∙ e) ∙ same

allow-answer :
    (a : AuthLimiter) (ip : Bytes) (now : ℕ)
    → (allow a ip now).1
      ≡ (a.budget == 0) || ltb (length (recent a.window now (fails_of a.fails ip))) a.budget
unfolding allow
allow-answer a ip now = ground (arith, prune-list a ip now)

length-recent :
    (ip : Bytes) (now : ℕ) (cs : List (Call × ℕ))
    → length (recent 60000000000 now (failed_at ip cs)) ≡ failures_within_minute ip now cs
unfolding recent
length-recent ip now [] = refl
length-recent ip now ((asks j, t) ∷ cs) = length-recent ip now cs
length-recent ip now ((fails_to j, t) ∷ cs) = ground (arith, length-recent ip now cs)

-- However calls of `Allow` and `Fail` alternate for whatever addresses, on a clock that does not go
-- back: an attempt is allowed exactly when there is no budget, or fewer failures than the budget are
-- among all those of its own address that are less than a minute old. What is pruned from the table
-- does not matter.
pub allow-refines :
    (per_minute : ℕ) (cs : List (Call × ℕ)) (ip : Bytes) (now : ℕ)
    → InTime 0 (cs ++ (asks ip, now) ∷ [])
    → (allow (answer_all (new_auth_limiter per_minute) cs) ip now).1
      ≡ (per_minute == 0) || ltb (failures_within_minute ip now cs) per_minute
unfolding new_auth_limiter fails_of lookup
allow-refines per_minute cs ip now times = elim (Bool-cases (per_minute == 0)) [
  | inl e ↦
      let a = answer_all (new_auth_limiter per_minute) cs in
      let same = answer_all-budget (new_auth_limiter per_minute) cs e in
      ground (arith, e, same, allow-answer a ip now)
  | inr e ↦
      let a = answer_all (new_auth_limiter per_minute) cs in
      let (calls, le) = InTime-append 0 cs (asks ip) now times in
      let k =
        answer_all-Knows 60000000000 per_minute 0 (λ j. []) (new_auth_limiter per_minute) cs e calls
          (record { window = refl; budget = refl; counts = λ j at l. refl }) in
      let counted : recent a.window now (fails_of a.fails ip)
          ≡ recent 60000000000 now (failed_at ip cs) =
        ap (λ w. recent w now (fails_of a.fails ip)) k.window ∙ k.counts ip now le in
      allow-answer a ip now
      ∙ ap (λ n. (n == 0) || ltb (length (recent a.window now (fails_of a.fails ip))) n) k.budget
      ∙ ap (λ l. (per_minute == 0) || ltb (length l) per_minute) counted
      ∙ ap (λ n. (per_minute == 0) || ltb n per_minute) (length-recent ip now cs)
]
