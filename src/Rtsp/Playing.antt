-- ===== src/Rtsp/Playing.antt =====
-- Which sessions count as the clients of a stream (pkg/bridge/rtsp.go).
use reolinkproxy.Base.{
  ℕ, ◌-◌, ◌≡◌, refl, List, [], ◌∷◌, Bool, true, false, ◌&&◌, ◌==◌, leb, if◌then◌else◌, Option, none,
  some, ==_iff, ==_refl, Bool-cases, inl, inr, ◌⊎◌, ◌∙◌, ap,
}
use reolinkproxy.Rtsp.Sets.{put, has, is_some, put_same, has-add, has-without}
use reolinkproxy.Rtsp.{
  Session, Server, Request, sets_up, plays, records, pauses, closes, bridge_ends, perform, run,
  attach_session_to_stream, add_client, remove_client, finish, close_bridge, release, running, hold,
  make_bridge, ensure_session_state, feeds, start_bridge, start_back_channel, play_stream,
  set_playing, start_playing, on_play, leave_talk, stop_playing, on_pause, on_session_close,
}

-- The session plays the stream of handler `h`.
abbrev pub is_playing : Session → ℕ → Bool
is_playing session h = session.playing && is_some h session.stream

-- The clients of a stream are the sessions that play it.
abbrev pub Counted : Server → Type 0
Counted s = (i h : ℕ) → has i (s.clients h) ≡ is_playing (s.sessions i) h

-- What concerns talks leaves clients and playing alone.
abbrev Quiet : Server → Server → Type 0
Quiet s s' =
    ((h : ℕ) → s'.clients h ≡ s.clients h)
    × ((i h : ℕ) → is_playing (s'.sessions i) h ≡ is_playing (s.sessions i) h)

Counted-Quiet : (s s' : Server) → Quiet s s' → Counted s → Counted s'
Counted-Quiet s s' (c, p) k i h = rw (c h, p i h) (k i h)

put_talk_plays :
    (f : ℕ → Session) (i j h : ℕ) (t : Option ℕ)
    → is_playing (put f i (record (f i) { talk = t }) j) h ≡ is_playing (f j) h
put_talk_plays f i j h t = elim (Bool-cases (j == i)) [
  | inl same ↦ rw (same, (==_iff j i).0 same) refl
  | inr other ↦ rw other refl
]

finish-Quiet : (b : ℕ) (s : Server) → Quiet s (finish b s)
unfolding finish
finish-Quiet b s =
    elim (is_some b (s.active (s.publisher b)))
      as (λ t. Quiet s (if t then record s { active = put s.active (s.publisher b) none } else s)) [
        | true ↦ ((λ h. refl), (λ i h. refl))
        | false ↦ ((λ h. refl), (λ i h. refl))
      ]

finish-sessions : (b : ℕ) (s : Server) → (finish b s).sessions ≡ s.sessions
unfolding finish
finish-sessions b s =
    elim (is_some b (s.active (s.publisher b)))
      as (λ t.
        (if t then record s { active = put s.active (s.publisher b) none } else s).sessions
        ≡ s.sessions) [ true ↦ refl | false ↦ refl ]

close_bridge-Quiet : (b : ℕ) (s : Server) → Quiet s (close_bridge b s)
unfolding close_bridge
close_bridge-Quiet b s = finish-Quiet b s

release-Quiet : (b : ℕ) (s : Server) → Quiet s (release b s)
unfolding release
release-Quiet b s =
    let released : Server = record s { refs = put s.refs b (s.refs b - 1) } in
    elim (leb (s.refs b - 1) 0)
      as (λ t. Quiet s (if t then close_bridge b released else released)) [
        | true ↦ close_bridge-Quiet b released
        | false ↦ ((λ h. refl), (λ i h. refl))
      ]

leave_talk-Quiet : (t : Option ℕ) (i : ℕ) (s : Server) → Quiet s (leave_talk t i s)
unfolding leave_talk
leave_talk-Quiet none i s = ((λ h. refl), (λ j h. refl))
leave_talk-Quiet (some b) i s =
    let (c, p) = release-Quiet b s in
    (c, (λ j h. put_talk_plays (release b s).sessions i j h none ∙ p j h))

ensure_session_state-Quiet :
    (p i : ℕ) (b : Option ℕ) (s : Server) → Quiet s (ensure_session_state p i b s)
unfolding ensure_session_state hold make_bridge
ensure_session_state-Quiet p i (some b) s =
    ((λ h. refl), (λ j h. put_talk_plays s.sessions i j h (some b)))
ensure_session_state-Quiet p i none s =
    ((λ h. refl), (λ j h. put_talk_plays s.sessions i j h (some s.bridges)))

start_bridge-Quiet : (p i : ℕ) (s : Server) → Quiet s (start_bridge p i s)
unfolding start_bridge
start_bridge-Quiet p i s =
    elim (feeds p s (s.sessions i).talk)
      as (λ t. Quiet s (if t then s else ensure_session_state p i (running p s) s)) [
        | true ↦ ((λ h. refl), (λ j h. refl))
        | false ↦ ensure_session_state-Quiet p i (running p s) s
      ]

start_back_channel-Quiet : (p : Option ℕ) (i : ℕ) (s : Server) → Quiet s (start_back_channel p i s)
unfolding start_back_channel
start_back_channel-Quiet none i s = ((λ h. refl), (λ j h. refl))
start_back_channel-Quiet (some p) i s = start_bridge-Quiet p i s

-- A session that plays stays with the stream it plays.
abbrev pub Stays : ℕ → ℕ → Server → Type 0
Stays i h s = ((s.sessions i).playing ≡ false) ⊎ ((s.sessions i).stream ≡ some h)

attach-Counted :
    (i h : ℕ) (s : Server) → Stays i h s → Counted s → Counted (attach_session_to_stream i h s)
unfolding attach_session_to_stream
attach-Counted i h s stays c j k = elim (Bool-cases (j == i)) [
  | inl same ↦
      rw (same, (==_iff j i).0 same)
        (c i k ∙ elim stays [
          | inl off ↦ rw off refl
          | inr there ↦ ap (λ o. (s.sessions i).playing && is_some k o) there
        ])
  | inr other ↦ rw other (c j k)
]

start_playing-Counted :
    (playing : Bool) (h i : ℕ) (s : Server)
    → (s.sessions i).playing ≡ playing
    → (s.sessions i).stream ≡ some h
    → Counted s
    → Counted (start_playing playing h i s)
unfolding start_playing set_playing add_client
start_playing-Counted true h i s p t c j k = c j k
start_playing-Counted false h i s p t c j k =
    let before = c j k in
    let added = has-add i j (s.clients h) in
    elim (Bool-cases (k == h)) [
      | inl here ↦ elim (Bool-cases (j == i)) [
        | inl same ↦ rw (here, same, added, same, t, here) refl
        | inr other ↦ rw (here, other, added, other, (==_iff k h).0 here) (c j h)
      ]
      | inr there ↦ elim (Bool-cases (j == i)) [
        | inl same ↦ rw (there, same, t, there) (before ∙ rw ((==_iff j i).0 same, p) refl)
        | inr other ↦ rw (there, other) before
      ]
    ]

play_stream-Counted : (h i : ℕ) (s : Server) → Stays i h s → Counted s → Counted (play_stream h i s)
unfolding play_stream
play_stream-Counted h i s stays c =
    let s' = attach_session_to_stream i h s in
    start_playing-Counted (s'.sessions i).playing h i s' refl
      (unfold attach_session_to_stream in
        ap (λ (x : Session). x.stream)
          (put_same s.sessions i (record (s.sessions i) { stream = some h })))
      (attach-Counted i h s stays c)

stop_playing-Counted :
    (h : Option ℕ) (playing : Bool) (i : ℕ) (s : Server)
    → (s.sessions i).playing ≡ playing
    → (s.sessions i).stream ≡ h
    → Counted s
    → Counted (stop_playing h playing i s)
unfolding stop_playing set_playing remove_client
stop_playing-Counted none playing i s p t c j k = c j k
stop_playing-Counted (some h) false i s p t c j k = c j k
stop_playing-Counted (some h) true i s p t c j k =
    let before = c j k in
    let removed = has-without i j (s.clients h) in
    elim (Bool-cases (k == h)) [
      | inl here ↦ elim (Bool-cases (j == i)) [
        | inl same ↦ rw (here, same, removed, same) refl
        | inr other ↦ rw (here, other, removed, other, (==_iff k h).0 here) (c j h)
      ]
      | inr there ↦ elim (Bool-cases (j == i)) [
        | inl same ↦ rw (there, same) (before ∙ rw ((==_iff j i).0 same, p, t, there) refl)
        | inr other ↦ rw (there, other) before
      ]
    ]

-- What may be asked while a session plays: SETUP and PLAY of the stream that it plays.
abbrev pub Keeps : Server → Request → Type 0
Keeps s (sets_up i h) = Stays i h s
Keeps s (plays (some h) talk back i) = Stays i h s
Keeps s (plays none talk back i) = Unit {0}
Keeps s (records p i) = Unit {0}
Keeps s (pauses i) = Unit {0}
Keeps s (closes i) = Unit {0}
Keeps s (bridge_ends b) = Unit {0}

abbrev pub AllKeep : Server → List Request → Type 0
AllKeep s [] = Unit {0}
AllKeep s (r ∷ requests) = Keeps s r × AllKeep (perform s r) requests

release-sessions : (b : ℕ) (s : Server) → (release b s).sessions ≡ s.sessions
unfolding release close_bridge
release-sessions b s =
    let released : Server = record s { refs = put s.refs b (s.refs b - 1) } in
    elim (leb (s.refs b - 1) 0)
      as (λ t. (if t then close_bridge b released else released).sessions ≡ s.sessions) [
        | true ↦ finish-sessions b released
        | false ↦ refl
      ]

leave_talk-same :
    (t : Option ℕ) (i : ℕ) (s : Server)
    → (((leave_talk t i s).sessions i).stream ≡ (s.sessions i).stream)
      × (((leave_talk t i s).sessions i).playing ≡ (s.sessions i).playing)
unfolding leave_talk
leave_talk-same none i s = (refl, refl)
leave_talk-same (some b) i s = rw (==_refl i, release-sessions b s) (refl, refl)

on_pause-Counted : (i : ℕ) (s : Server) → Counted s → Counted (on_pause i s).1
unfolding on_pause
on_pause-Counted i s c =
    let s' = leave_talk (s.sessions i).talk i s in
    let (t, p) = leave_talk-same (s.sessions i).talk i s in
    stop_playing-Counted (s.sessions i).stream (s.sessions i).playing i s' p t
      (Counted-Quiet s s' (leave_talk-Quiet (s.sessions i).talk i s) c)

on_session_close-Counted : (i : ℕ) (s : Server) → Counted s → Counted (on_session_close i s)
unfolding on_session_close
on_session_close-Counted i s c =
    let session = s.sessions i in
    let s' = stop_playing session.stream session.playing i s in
    Counted-Quiet s' (leave_talk session.talk i s') (leave_talk-Quiet session.talk i s')
      (stop_playing-Counted session.stream session.playing i s refl refl c)

perform-Counted : (s : Server) (r : Request) → Keeps s r → Counted s → Counted (perform s r)
unfolding perform on_play
perform-Counted s (sets_up i h) k c = attach-Counted i h s k c
perform-Counted s (plays (some h) talk back i) k c =
    let s' = play_stream h i s in
    Counted-Quiet s' (start_back_channel back i s') (start_back_channel-Quiet back i s')
      (play_stream-Counted h i s k c)
perform-Counted s (plays none none back i) k c = c
perform-Counted s (plays none (some talk) back i) k c = c
perform-Counted s (records p i) k c =
    Counted-Quiet s (start_bridge p i s) (start_bridge-Quiet p i s) c
perform-Counted s (pauses i) k c = on_pause-Counted i s c
perform-Counted s (closes i) k c = on_session_close-Counted i s c
perform-Counted s (bridge_ends b) k c =
    Counted-Quiet s (close_bridge b s) (close_bridge-Quiet b s) c

-- As long as no session is asked for another stream than the one it plays: after any requests the
-- clients that a stream handler counts are exactly the sessions that play its stream.
pub run-Counted :
    (requests : List Request) (s : Server)
    → AllKeep s requests
    → Counted s
    → Counted (run s requests)
unfolding run
run-Counted [] s k c = c
run-Counted (r ∷ requests) s (k, ks) c =
    run-Counted requests (perform s r) ks (perform-Counted s r k c)
