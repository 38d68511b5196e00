-- ===== src/Device/Webhook.antt =====
-- The webhook of a battery camera in pkg/bridge/device.go: registering it, and when the connection may go.
use reolinkproxy.Base.{
  zero, suc, ℕ, ◌≡◌, refl, List, [], ◌∷◌, Bool, true, false, ◌&&◌, Option, none, some, Result, ok,
  err, ◌==◌, if◌then◌else◌, Bool-cases, Option-cases, ap, subst, ==_iff, arith, inl, inr,
}

-- An error of the camera's answer (`StatusError`), of the connection, or of the last look.
pub data WebhookError : Type 0 where
  status no_answer not_verified : WebhookError

-- The camera, whose answers are not ours to know: what GetWebhook and SetWebhook say, and its state
-- after them. An address is a number.
pub record Camera : Type 1 where
  pub Condition : Type 0
  pub get_webhook : Condition → Result WebhookError (Bool × ℕ) × Condition
  pub set_webhook : Bool → ℕ → Condition → Result WebhookError (Unit {0}) × Condition

-- What a visit of `watchLowPower` meets: `Ensure` gives a client, of an NVR or not, the camera's push
-- came in time, and, where it did not, how often watchEventsLoop sets the webhook up in the session that
-- is then held open until a push ends it.
pub record Visit : Type 0 where
  pub connected : Bool
  pub nvr : Bool
  pub pushed : Bool
  pub setups : ℕ

-- It is at it, it holds a session open for good, or it lets the connection go.
pub data Course : Type 0 where
  visiting listening sleeping : Course

module _ (c : Camera) where
  unfoldable pub verified : ℕ → Result WebhookError (Bool × ℕ) → Option WebhookError
  verified url (err e) = some e
  verified url (ok (enabled, got_url)) =
      if enabled && (got_url == url) then none else some not_verified

  unfoldable pub after_set :
      ℕ → Result WebhookError (Unit {0}) × c.Condition → Option WebhookError × c.Condition
  unfolding verified
  after_set url (err e, s) = (some e, s)
  after_set url (ok u, s) = let (answer, s') = c.get_webhook s in (verified url answer, s')

  unfoldable pub after_get :
      ℕ → Result WebhookError (Bool × ℕ) × c.Condition → Option WebhookError × c.Condition
  unfolding after_set
  after_get url (err e, s) = (some e, s)
  after_get url (ok (enabled, current), s) =
      if enabled && (current == url) then (none, s) else after_set url (c.set_webhook true url s)

  -- `subscribeWebhook`: its error, if any, and the camera after it.
  unfoldable pub subscribe_webhook : ℕ → c.Condition → Option WebhookError × c.Condition
  unfolding after_get
  subscribe_webhook url s = after_get url (c.get_webhook s)

  unfoldable pub refusal : Option WebhookError → Bool
  refusal (some status) = true
  refusal (some no_answer) = false
  refusal (some not_verified) = false
  refusal none = false

  -- `setupWebhookAndBatteryPoll` without the poll, for the url that the handlers have, if one:
  -- the error, `webhookFailed`, the camera.
  unfoldable pub setup_webhook :
      Option ℕ → Bool → c.Condition → Option WebhookError × Bool × c.Condition
  unfolding subscribe_webhook refusal
  setup_webhook none failed s = (none, failed, s)
  setup_webhook (some url) true s = (none, true, s)
  setup_webhook (some url) false s =
      let (error, s') = subscribe_webhook url s in (error, refusal error, s')

  -- The set-ups of a session that is held open; each is skipped once one was refused.
  unfoldable pub hold_open : ℕ → Option ℕ → Bool → c.Condition → Bool × c.Condition
  unfolding setup_webhook
  hold_open zero url failed s = (failed, s)
  hold_open (suc n) url failed s =
      let (error, failed', s') = setup_webhook url failed s in hold_open n url failed' s'

  -- What follows the setup in a visit; `later` is how it goes on.
  unfoldable pub after_setup :
      Bool
      → (c.Condition → Bool × c.Condition)
      → Option WebhookError × Bool × c.Condition
      → (Bool → c.Condition → Course × c.Condition)
      → Course × c.Condition
  after_setup pushed held (error, true, s) later = (listening, s)
  after_setup pushed held (some e, false, s) later = later false s
  after_setup true held (none, false, s) later = (sleeping, s)
  after_setup false held (none, false, s) later = let (failed, s') = held s in later failed s'

  -- `watchLowPower`, with the visits it makes.
  unfoldable pub watch_low_power : Option ℕ → Bool → c.Condition → List Visit → Course × c.Condition
  unfolding setup_webhook after_setup hold_open
  watch_low_power url failed s [] = (visiting, s)
  watch_low_power url failed s (v ∷ visits) =
      let missed = watch_low_power url failed s visits in
      let course =
        after_setup v.pushed (hold_open v.setups url false) (setup_webhook url failed s)
          (λ failed' s'. watch_low_power url failed' s' visits) in
      if v.connected then (if v.nvr then (listening, s) else course) else missed

  -- GetWebhook said, as the last answer before `s`, that the camera pushes to `url`.
  abbrev pub Confirmed : ℕ → c.Condition → Type 0
  Confirmed url s = (s0 : c.Condition) × (c.get_webhook s0 ≡ (ok (true, url), s))

  abbrev pub Reached : ℕ → Option WebhookError × c.Condition → Type 0
  Reached url (none, s) = Confirmed url s
  Reached url (some e, s) = Unit {0}

  verified-none :
      (url : ℕ) (answer : Result WebhookError (Bool × ℕ))
      → verified url answer ≡ none
      → answer ≡ ok (true, url)
  unfolding verified
  verified-none url (err e) n = absurd (cc n)
  verified-none url (ok (false, got_url)) n = absurd (cc n)
  verified-none url (ok (true, got_url)) n = elim (Bool-cases (got_url == url)) [
    | inl same ↦ ap (λ u. ok (true, u)) ((==_iff got_url url).0 same)
    | inr other ↦ absurd (ground (arith, other, n))
  ]

  verified-Reached :
      (url : ℕ) (s : c.Condition) (r : Result WebhookError (Bool × ℕ) × c.Condition)
      → c.get_webhook s ≡ r
      → Reached url (verified url r.0, r.1)
  verified-Reached url s (answer, s') e = elim (Option-cases (verified url answer)) [
    | inl n ↦ rw n (s, rw⁻¹ (verified-none url answer n) e)
    | inr (error, wrong) ↦ rw wrong tt
  ]

  after_set-Reached :
      (url : ℕ) (r : Result WebhookError (Unit {0}) × c.Condition) → Reached url (after_set url r)
  unfolding after_set
  after_set-Reached url (err e, s) = tt
  after_set-Reached url (ok u, s) = verified-Reached url s (c.get_webhook s) refl

  after_get-Reached :
      (url : ℕ) (s : c.Condition) (r : Result WebhookError (Bool × ℕ) × c.Condition)
      → c.get_webhook s ≡ r
      → Reached url (after_get url r)
  unfolding after_get
  after_get-Reached url s (err e, s') h = tt
  after_get-Reached url s (ok (false, current), s') h = after_set-Reached url _
  after_get-Reached url s (ok (true, current), s') h = elim (Bool-cases (current == url)) [
    | inl same ↦
        rw same
          (s, subst (λ u. c.get_webhook s ≡ (ok (true, u), s')) ((==_iff current url).0 same) h)
    | inr other ↦ rw other (after_set-Reached url _)
  ]

  -- Where the course has come to rest, what it says of the camera.
  abbrev pub Rested : ℕ → Course × c.Condition → Type 0
  Rested url (sleeping, s) = Confirmed url s
  Rested url (listening, s) = Unit {0}
  Rested url (visiting, s) = Unit {0}

  after_setup-Rested :
      (url : ℕ) (pushed failed : Bool) (held : c.Condition → Bool × c.Condition)
      (r : Option WebhookError × c.Condition) (later : Bool → c.Condition → Course × c.Condition)
      → Reached url r
      → ((failed' : Bool) (s' : c.Condition) → Rested url (later failed' s'))
      → Rested url (after_setup pushed held (r.0, failed, r.1) later)
  unfolding after_setup
  after_setup-Rested url pushed true held r later h l = tt
  after_setup-Rested url pushed false held (some e, s) later h l = l false s
  after_setup-Rested url true false held (none, s) later h l = h
  after_setup-Rested url false false held (none, s) later h l = l (held s).0 (held s).1

  setup-Rested :
      (url : ℕ) (pushed failed : Bool) (held : c.Condition → Bool × c.Condition) (s : c.Condition)
      (later : Bool → c.Condition → Course × c.Condition)
      → ((failed' : Bool) (s' : c.Condition) → Rested url (later failed' s'))
      → Rested url (after_setup pushed held (setup_webhook (some url) failed s) later)
  unfolding setup_webhook subscribe_webhook
  setup-Rested url pushed true held s later l = unfold after_setup in tt
  setup-Rested url pushed false held s later l =
      after_setup-Rested url pushed _ held (after_get url (c.get_webhook s)) later
        (after_get-Reached url s (c.get_webhook s) refl) l

  -- When the connection to a battery camera is let go, the camera's last answer said that it pushes its
  -- events to our address.
  pub watch_low_power-Rested :
      (url : ℕ) (visits : List Visit) (failed : Bool) (s : c.Condition)
      → Rested url (watch_low_power (some url) failed s visits)
  unfolding watch_low_power
  watch_low_power-Rested url [] failed s = tt
  watch_low_power-Rested url (v ∷ visits) failed s = elim (Bool-cases v.connected) [
    | inr missed ↦ rw missed (watch_low_power-Rested url visits failed s)
    | inl here ↦ elim (Bool-cases v.nvr) [
      | inl nvr ↦ rw (here, nvr) tt
      | inr camera ↦
          rw (here, camera)
            (setup-Rested url v.pushed failed (hold_open v.setups (some url) false) s _
              (λ failed' s'. watch_low_power-Rested url visits failed' s'))
    ]
  ]
