-- ===== src/Device/Probing.antt =====
-- The attempts of `Ensure` in pkg/bridge/device.go to reach a camera directly that it prefers by UID.
use reolinkproxy.Base.{
  subst, ◌∙◌, ℕ, ◌+◌, ◌≤◌, ◌≡◌, refl, List, [], ◌∷◌, Bool, true, false, Option, none, some, arith,
  if◌then◌else◌, Bool-cases, inl, inr,
}
use reolinkproxy.Device.{
  idle, lost, Device, ClientError, Login, Call, ensures, resets, closes, ensure, ensure_with,
  usable, connect, logged_in, close_locked, drop_client, reset_if_current, is_current,
  note_transport, should_reprobe_tcp, perform, uid_reprobe_interval,
}
use reolinkproxy.Device.Spacing.{Spaced, Spaced-earlier}

-- It dialled the host first although it prefers the UID.
abbrev pub probing : Device → Option Bool → Bool
probing m (some false) = m.prefer_uid
probing m (some true) = false
probing m none = false

-- The times of these attempts in a run of calls.
unfoldable pub probes : Device → List Call → List ℕ
unfolding perform
probes m [] = []
probes m (resets err client ∷ calls) = probes (reset_if_current err client m) calls
probes m (closes err ∷ calls) = probes (close_locked err m) calls
probes m (ensures now err dial ∷ calls) =
    let (client, uid_first, m') = ensure now err dial m in
    let later = probes m' calls in if probing m uid_first then now ∷ later else later

-- The times of the calls do not decrease.
abbrev pub Clocked : ℕ → List Call → Type 0
Clocked before [] = Unit {0}
Clocked before (resets err client ∷ calls) = Clocked before calls
Clocked before (closes err ∷ calls) = Clocked before calls
Clocked before (ensures now err dial ∷ calls) = (before ≤ now) × Clocked now calls

-- What an `Ensure` at `now` does to `prefer_uid_since`.
abbrev Stamps : ℕ → Device → Option ℕ × Option Bool × Device → Type 0
Stamps now m (client, uid_first, m') =
    (m.prefer_uid_since ≤ m'.prefer_uid_since)
    × (m'.prefer_uid_since ≤ now)
    × (probing m uid_first ≡ true
        → (m.prefer_uid_since + uid_reprobe_interval ≤ now) × (m'.prefer_uid_since ≡ now))

drop_client_keeps :
    (err : Option ClientError) (client : Option ℕ) (m : Device)
    → ((drop_client err client m).prefer_uid_since ≡ m.prefer_uid_since)
      × ((drop_client err client m).prefer_uid ≡ m.prefer_uid)
unfolding drop_client
drop_client_keeps err none m = (refl, refl)
drop_client_keeps none (some client) m = (refl, refl)
drop_client_keeps (some idle) (some client) m = (refl, refl)
drop_client_keeps (some lost) (some client) m = (refl, refl)

logged_in-since :
    (now : ℕ) (login : Option Login) (m : Device)
    → m.prefer_uid_since ≤ now
    → let m' = (logged_in now login m).1 in
      (m.prefer_uid_since ≤ m'.prefer_uid_since) × (m'.prefer_uid_since ≤ now)
unfolding logged_in note_transport
logged_in-since now none m le = (omega arith, le)
logged_in-since now (some login) m le = ground (arith, le)

not_probing : (m : Device) (b : Bool) → m.prefer_uid ≡ b → probing m (some b) ≡ false
not_probing m true e = refl
not_probing m false e = e

should_reprobe_tcp-late :
    (now : ℕ) (m : Device)
    → should_reprobe_tcp now m ≡ true
    → m.prefer_uid_since + uid_reprobe_interval ≤ now
unfolding should_reprobe_tcp
should_reprobe_tcp-late now m p = ground arith

connect-Stamps :
    (now : ℕ) (dial : Bool → Option Login) (m : Device)
    → m.prefer_uid_since ≤ now
    → Stamps now m (connect now dial m)
unfolding connect
connect-Stamps now dial m le = elim (Bool-cases (should_reprobe_tcp now m)) [
  | inl probe ↦
      let m' : Device = record m { prefer_uid_since = now } in
      let (lo, hi) = logged_in-since now (dial false) m' (omega arith) in
      rw probe (
        omega (arith, lo, le),
        hi,
        λ p. (should_reprobe_tcp-late now m probe, omega (arith, lo, hi)),
      )
  | inr keep ↦
      let (lo, hi) = logged_in-since now (dial m.prefer_uid) m le in
      rw keep (lo, hi, λ p. absurd (cc (p, not_probing m m.prefer_uid refl)))
]

Stamps-same :
    (now : ℕ) (c m : Device) (r : Option ℕ × Option Bool × Device)
    → c.prefer_uid_since ≡ m.prefer_uid_since
    → c.prefer_uid ≡ m.prefer_uid
    → Stamps now c r
    → Stamps now m r
Stamps-same now c m (client, none, m') e p (lo, hi, f) = (rw⁻¹ e lo, hi, λ h. absurd (cc h))
Stamps-same now c m (client, some true, m') e p (lo, hi, f) = (rw⁻¹ e lo, hi, λ h. absurd (cc h))
Stamps-same now c m (client, some false, m') e p (lo, hi, f) =
    (rw⁻¹ e lo, hi, λ h. rw⁻¹ e (f (p ∙ h)))

ensure_with-Stamps :
    (client : Option ℕ) (now : ℕ) (err : Option ClientError) (dial : Bool → Option Login)
    (m : Device)
    → m.prefer_uid_since ≤ now
    → Stamps now m (ensure_with client now err dial m)
unfolding ensure_with close_locked
ensure_with-Stamps (some client) now err dial m le = (omega arith, le, λ p. absurd (cc p))
ensure_with-Stamps none now err dial m le =
    let (since, prefer) = drop_client_keeps err m.client m in
    let c = drop_client err m.client m in
    Stamps-same now c m (connect now dial c) since prefer (connect-Stamps now dial c (rw since le))

-- An attempt, or none, and then attempts that keep the distance from what it stamped.
Stamps-Spaced :
    (now : ℕ) (m : Device) (r : Option ℕ × Option Bool × Device) (later : List ℕ)
    → Stamps now m r
    → Spaced uid_reprobe_interval (r.2.prefer_uid_since + uid_reprobe_interval) later
    → Spaced uid_reprobe_interval
        (m.prefer_uid_since + uid_reprobe_interval)
        (if probing m r.1 then now ∷ later else later)
Stamps-Spaced now m (client, uid_first, m') later (lo, hi, f) s =
    elim (Bool-cases (probing m uid_first)) [
      | inl probe ↦ rw probe ((f probe).0, rw⁻¹ (f probe).1 s)
      | inr keep ↦ rw keep (Spaced-earlier uid_reprobe_interval _ _ later (omega (arith, lo)) s)
    ]

-- On a clock that does not go back, the attempts to reach the camera directly that a device makes while
-- it prefers the UID come five minutes or more after one another, and after it came to prefer the UID.
pub probes-Spaced :
    (calls : List Call) (before : ℕ) (m : Device)
    → m.prefer_uid_since ≤ before
    → Clocked before calls
    → Spaced uid_reprobe_interval (m.prefer_uid_since + uid_reprobe_interval) (probes m calls)
unfolding probes close_locked reset_if_current ensure
probes-Spaced [] before m le c = tt
probes-Spaced (closes err ∷ calls) before m le c =
    let (since, prefer) = drop_client_keeps err m.client m in
    subst
      (λ k.
        Spaced uid_reprobe_interval (k + uid_reprobe_interval)
          (probes (drop_client err m.client m) calls))
      since (probes-Spaced calls before (drop_client err m.client m) (rw since le) c)
probes-Spaced (resets err client ∷ calls) before m le c =
    let (since, prefer) = drop_client_keeps err m.client m in
    elim (is_current client m.client)
      as (λ b.
        Spaced uid_reprobe_interval (m.prefer_uid_since + uid_reprobe_interval)
          (probes (if b then drop_client err m.client m else m) calls)) [
            | true ↦
                subst
                  (λ k.
                    Spaced uid_reprobe_interval (k + uid_reprobe_interval)
                      (probes (drop_client err m.client m) calls))
                  since (probes-Spaced calls before (drop_client err m.client m) (rw since le) c)
            | false ↦ probes-Spaced calls before m le c
          ]
probes-Spaced (ensures now err dial ∷ calls) before m le c =
    let stamps = ensure_with-Stamps (usable err m.client) now err dial m (omega (arith, le, c.0)) in
    let r = ensure_with (usable err m.client) now err dial m in
    Stamps-Spaced now m r (probes r.2 calls) stamps (probes-Spaced calls now r.2 stamps.1 c.1)
