-- ===== src/Rtsp/Talks.antt =====
-- Which sessions feed a talk bridge, and when it is torn down (pkg/bridge/rtsp.go, talk_rtsp.go).
use reolinkproxy.Base.{
  ℕ, ◌≡◌, refl, List, [], ◌∷◌, Bool, true, false, ◌==◌, Option, none, some, arith, inl, inr, ◌∙◌,
  ap,
}
use reolinkproxy.Rtsp.Sets.{put, add}
use reolinkproxy.Rtsp.{
  Session, Server, new_server, Request, sets_up, plays, records, pauses, closes, bridge_ends,
  perform, run, attach_session_to_stream, add_client, remove_client, close_bridge, feeds,
  start_back_channel, play_stream, set_playing, start_playing, on_play, leave_talk, stop_playing,
  on_pause, on_session_close,
}
use reolinkproxy.Rtsp.Feeding.{close_bridge-Shuts, put_keeps_talk}
use reolinkproxy.Rtsp.Bridges.{Sound, Sound-Shuts, leave_talk-Sound, Free, start_bridge-Sound}

-- Clients and playing do not matter.
Sound-same_talk :
    (s : Server) (f : ℕ → Session) (clients : ℕ → List ℕ)
    → ((i : ℕ) → (f i).talk ≡ (s.sessions i).talk)
    → Sound s
    → Sound (record s { sessions = f; clients = clients })
Sound-same_talk s f clients e v = record {
  fed = λ b.
      let g = v.fed b in
      record {
        holders = g.holders;
        unique = g.unique;
        exactly = λ i. rw (e i) (g.exactly i);
        size = g.size;
      };
  made = λ b i le. rw (e i) (v.made b i le);
  active_made = v.active_made;
  ended = v.ended;
}

start_playing-Sound :
    (playing : Bool) (h i : ℕ) (s : Server) → Sound s → Sound (start_playing playing h i s)
unfolding start_playing set_playing add_client
start_playing-Sound true h i s v = v
start_playing-Sound false h i s v =
    Sound-same_talk s (put s.sessions i (record (s.sessions i) { playing = true }))
      (put s.clients h (add i (s.clients h)))
      (put_keeps_talk s.sessions i (record (s.sessions i) { playing = true }) refl) v

start_playing_keeps :
    (playing : Bool) (h i : ℕ) (s : Server)
    → (((start_playing playing h i s).sessions i).talk ≡ (s.sessions i).talk)
      × ((start_playing playing h i s).publisher ≡ s.publisher)
unfolding start_playing set_playing add_client
start_playing_keeps true h i s = (refl, refl)
start_playing_keeps false h i s =
    (put_keeps_talk s.sessions i (record (s.sessions i) { playing = true }) refl i, refl)

feeds-same :
    (p : ℕ) (s s' : Server) (t : Option ℕ) → s'.publisher ≡ s.publisher → feeds p s' t ≡ feeds p s t
unfolding feeds
feeds-same p s s' none e = refl
feeds-same p s s' (some b) e = ap (λ f. f b == p) e

Free-same :
    (p i : ℕ) (s s' : Server)
    → (s'.sessions i).talk ≡ (s.sessions i).talk
    → s'.publisher ≡ s.publisher
    → Free p i s
    → Free p i s'
Free-same p i s s' t e (inl n) = inl (t ∙ n)
Free-same p i s s' t e (inr f) =
    inr (feeds-same p s s' (s'.sessions i).talk e ∙ ap (feeds p s) t ∙ f)

play_stream-Sound :
    (h i : ℕ) (s : Server)
    → Sound s
    → Sound (play_stream h i s) × ((p : ℕ) → Free p i s → Free p i (play_stream h i s))
unfolding play_stream attach_session_to_stream
play_stream-Sound h i s v =
    let session = record (s.sessions i) { stream = some h } in
    let f = put s.sessions i session in
    let s' : Server = record s { sessions = f } in
    let attached = Sound-same_talk s f s.clients (put_keeps_talk s.sessions i session refl) v in
    let (t, q) = start_playing_keeps (f i).playing h i s' in
    (
      start_playing-Sound (f i).playing h i s' attached,
      λ p free.
          Free-same p i s (start_playing (f i).playing h i s')
            (t ∙ put_keeps_talk s.sessions i session refl i) q free,
    )

stop_playing-Sound :
    (h : Option ℕ) (playing : Bool) (i : ℕ) (s : Server)
    → Sound s
    → Sound (stop_playing h playing i s)
unfolding stop_playing set_playing remove_client
stop_playing-Sound none playing i s v = v
stop_playing-Sound (some h) false i s v = v
stop_playing-Sound (some h) true i s v =
    Sound-same_talk s _ _
      (put_keeps_talk s.sessions i (record (s.sessions i) { playing = false }) refl) v

-- What may be asked while a session feeds a talk: to feed that one.
abbrev pub Alone : Server → Request → Type 0
Alone s (sets_up i h) = Unit {0}
Alone s (plays (some h) talk (some p) i) = Free p i s
Alone s (plays (some h) talk none i) = Unit {0}
Alone s (plays none talk back i) = Unit {0}
Alone s (records p i) = Free p i s
Alone s (pauses i) = Unit {0}
Alone s (closes i) = Unit {0}
Alone s (bridge_ends b) = Unit {0}

abbrev pub AllAlone : Server → List Request → Type 0
AllAlone s [] = Unit {0}
AllAlone s (r ∷ requests) = Alone s r × AllAlone (perform s r) requests

stop_playing-talk :
    (h : Option ℕ) (playing : Bool) (i : ℕ) (s : Server)
    → ((stop_playing h playing i s).sessions i).talk ≡ (s.sessions i).talk
unfolding stop_playing set_playing remove_client
stop_playing-talk none playing i s = refl
stop_playing-talk (some h) false i s = refl
stop_playing-talk (some h) true i s =
    put_keeps_talk s.sessions i (record (s.sessions i) { playing = false }) refl i

perform-Sound : (s : Server) (r : Request) → Alone s r → Sound s → Sound (perform s r)
unfolding perform on_play start_back_channel on_pause on_session_close attach_session_to_stream
perform-Sound s (sets_up i h) a v =
    let session = record (s.sessions i) { stream = some h } in
    Sound-same_talk s (put s.sessions i session) s.clients
      (put_keeps_talk s.sessions i session refl) v
perform-Sound s (plays (some h) talk (some p) i) a v =
    let (v', free) = play_stream-Sound h i s v in
    start_bridge-Sound p i (play_stream h i s) (free p a) v'
perform-Sound s (plays (some h) talk none i) a v = (play_stream-Sound h i s v).0
perform-Sound s (plays none none back i) a v = v
perform-Sound s (plays none (some talk) back i) a v = v
perform-Sound s (records p i) a v = start_bridge-Sound p i s a v
perform-Sound s (pauses i) a v =
    stop_playing-Sound (s.sessions i).stream (s.sessions i).playing i
      (leave_talk (s.sessions i).talk i s) (leave_talk-Sound (s.sessions i).talk i s refl v)
perform-Sound s (closes i) a v =
    let session = s.sessions i in
    let s' = stop_playing session.stream session.playing i s in
    leave_talk-Sound session.talk i s' (stop_playing-talk session.stream session.playing i s)
      (stop_playing-Sound session.stream session.playing i s v)
perform-Sound s (bridge_ends b) a v = Sound-Shuts s (close_bridge b s) (close_bridge-Shuts b s).0 v

-- As long as no session is made to feed a second talk while it feeds one: after any requests, the count
-- that a talk bridge keeps is the number of the sessions that feed it, and a bridge that no session
-- feeds any more is done.
pub run-Sound :
    (requests : List Request) (s : Server) → AllAlone s requests → Sound s → Sound (run s requests)
unfolding run
run-Sound [] s a v = v
run-Sound (r ∷ requests) s (a, as_) v = run-Sound requests (perform s r) as_ (perform-Sound s r a v)

pub new_server-Sound : Sound new_server
new_server-Sound = record {
  fed = λ b. record { holders = []; unique = tt; exactly = λ i. refl; size = refl };
  made = λ b i le. refl;
  active_made = λ p b a. absurd (cc a);
  ended = λ b lt z. absurd (omega (arith, lt));
}
