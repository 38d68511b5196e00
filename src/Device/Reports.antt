-- ===== src/Device/Reports.antt =====
-- Which states a device reports (`notifyState` in pkg/bridge/device.go).
use reolinkproxy.Base.{
  ℕ, ◌≡◌, refl, List, [], ◌∷◌, ◌++◌, Bool, true, false, Option, none, some, ◌⊎◌, inl, inr, subst,
  sym, not, ◌&&◌, if◌then◌else◌,
}
use reolinkproxy.Device.{
  drop_client, is_current, logged_in, usable, ensure_with, Device, ClientError, idle, lost, Login,
  Call, ensures, resets, closes, close_locked, reset_if_current, connect, ensure, perform, run,
  should_reprobe_tcp,
}

-- The last state of a list, `false` before any.
abbrev pub last_of : Bool → List Bool → Bool
last_of before [] = before
last_of before (s ∷ states) = last_of s states

-- No `false` but directly after a `true`; `before` is the state before the list.
abbrev pub Grounded : Bool → List Bool → Type 0
Grounded before [] = Unit {0}
Grounded before (true ∷ states) = Grounded true states
Grounded before (false ∷ states) = (before ≡ true) × Grounded false states

last_of-snoc : (before s : Bool) (states : List Bool) → last_of before (states ++ s ∷ []) ≡ s
last_of-snoc before s [] = refl
last_of-snoc before s (x ∷ states) = last_of-snoc x s states

Grounded-snoc_true :
    (before : Bool) (states : List Bool)
    → Grounded before states
    → Grounded before (states ++ true ∷ [])
Grounded-snoc_true before [] g = tt
Grounded-snoc_true before (true ∷ states) g = Grounded-snoc_true true states g
Grounded-snoc_true before (false ∷ states) g = (g.0, Grounded-snoc_true false states g.1)

Grounded-snoc_false :
    (before : Bool) (states : List Bool)
    → last_of before states ≡ true
    → Grounded before states
    → Grounded before (states ++ false ∷ [])
Grounded-snoc_false before [] l g = (l, tt)
Grounded-snoc_false before (true ∷ states) l g = Grounded-snoc_false true states l g
Grounded-snoc_false before (false ∷ states) l g = (g.0, Grounded-snoc_false false states l g.1)

-- While there is a client, the last report was `true`.
pub record Reported (m : Device) : Type 0 where
  pub grounded : Grounded false m.notified
  pub online : (m.client ≡ none) ⊎ (last_of false m.notified ≡ true)

snoc_false-Reported :
    (m m' : Device)
    → Grounded false m.notified
    → last_of false m.notified ≡ true
    → m'.notified ≡ m.notified ++ false ∷ []
    → m'.client ≡ none
    → Reported m'
snoc_false-Reported m m' g l n c = record {
  grounded = subst (Grounded false) (sym n) (Grounded-snoc_false false m.notified l g);
  online = inl c;
}

lost-Reported :
    (client : ℕ) (m m' : Device)
    → m.client ≡ some client
    → Reported m
    → m'.notified ≡ m.notified ++ false ∷ []
    → m'.client ≡ none
    → Reported m'
lost-Reported client m m' c r n c' =
    let last : last_of false m.notified ≡ true = elim r.online [
      | inl gone ↦ absurd (cc (gone, c))
      | inr l ↦ l
    ] in
    snoc_false-Reported m m' r.grounded last n c'

drop_client-Reported :
    (err : Option ClientError) (client : Option ℕ) (m : Device)
    → m.client ≡ client
    → Reported m
    → ((drop_client err client m).client ≡ none) × Reported (drop_client err client m)
unfolding drop_client
drop_client-Reported err none m c r = (c, r)
drop_client-Reported none (some client) m c r = (refl, lost-Reported client m _ c r refl refl)
drop_client-Reported (some lost) (some client) m c r =
    (refl, lost-Reported client m _ c r refl refl)
drop_client-Reported (some idle) (some client) m c r =
    (refl, record { grounded = r.grounded; online = inl refl })

close_locked-Reported :
    (err : Option ClientError) (m : Device)
    → Reported m
    → ((close_locked err m).client ≡ none) × Reported (close_locked err m)
unfolding close_locked
close_locked-Reported err m r = drop_client-Reported err m.client m refl r

logged_in-Reported :
    (now : ℕ) (login : Option Login) (m : Device) → Reported m → Reported (logged_in now login m).1
unfolding logged_in
logged_in-Reported now none m r = r
logged_in-Reported now (some login) m r = record {
  grounded = Grounded-snoc_true false m.notified r.grounded;
  online = inr (last_of-snoc false true m.notified);
}

connect-Reported :
    (now : ℕ) (dial : Bool → Option Login) (m : Device)
    → Reported m
    → Reported (connect now dial m).2
unfolding connect
connect-Reported now dial m r =
    let probe = should_reprobe_tcp now m in
    logged_in-Reported now (dial (not probe && m.prefer_uid))
      (record m { prefer_uid_since = if probe then now else m.prefer_uid_since })
      (record { grounded = r.grounded; online = r.online })

ensure_with-Reported :
    (client : Option ℕ) (now : ℕ) (err : Option ClientError) (dial : Bool → Option Login)
    (m : Device)
    → Reported m
    → Reported (ensure_with client now err dial m).2
unfolding ensure_with
ensure_with-Reported (some client) now err dial m r = r
ensure_with-Reported none now err dial m r =
    connect-Reported now dial _ (close_locked-Reported err m r).1

ensure-Reported :
    (now : ℕ) (err : Option ClientError) (dial : Bool → Option Login) (m : Device)
    → Reported m
    → Reported (ensure now err dial m).2
unfolding ensure
ensure-Reported now err dial m r = ensure_with-Reported (usable err m.client) now err dial m r

reset_if_current-Reported :
    (err : Option ClientError) (client : ℕ) (m : Device)
    → Reported m
    → Reported (reset_if_current err client m)
unfolding reset_if_current
reset_if_current-Reported err client m r =
    elim (is_current client m.client) as (λ b. Reported (if b then close_locked err m else m)) [
      | true ↦ (close_locked-Reported err m r).1
      | false ↦ r
    ]

run-Reported : (calls : List Call) (m : Device) → Reported m → Reported (run m calls)
unfolding run perform
run-Reported [] m r = r
run-Reported (ensures now err dial ∷ calls) m r =
    run-Reported calls _ (ensure-Reported now err dial m r)
run-Reported (resets err client ∷ calls) m r =
    run-Reported calls _ (reset_if_current-Reported err client m r)
run-Reported (closes err ∷ calls) m r = run-Reported calls _ (close_locked-Reported err m r).1

-- A device that starts without a client and with nothing reported, and gets any calls, reports a lost
-- connection only right after a connection: each `false` follows a `true`. While it has a client, its
-- last report is `true`.
pub Grounded-run :
    (m : Device) (calls : List Call)
    → m.client ≡ none
    → m.notified ≡ []
    → Grounded false (run m calls).notified
      × (((run m calls).client ≡ none) ⊎ (last_of false (run m calls).notified ≡ true))
Grounded-run m calls c n =
    let r = run-Reported calls m (record { grounded = rw n tt; online = inl c }) in
    (r.grounded, r.online)
