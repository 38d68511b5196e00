-- ===== src/Rtsp.antt =====
-- The sessions of the RTSP server, pkg/bridge/rtsp.go, attachSessionState of pkg/bridge/pause.go and the
-- talk bridges of pkg/bridge/talk_rtsp.go: which sessions play a stream, and which feed a camera's talk.
-- The handlers with their mirrors and the audio publisher are in Mirrors and Audio.
-- Sessions, stream handlers, talk publishers and talk bridges are known by numbers of their own.
pub mod Sets
pub mod Playing
pub mod Feeding
pub mod Bridges
pub mod Talks
pub mod Mirrors
pub mod Rebuild
pub mod Audio
pub mod AudioSteps
pub mod AudioClock
use reolinkproxy.Base.{
  ℕ, ◌+◌, ◌-◌, List, [], ◌∷◌, Bool, true, false, not, ◌&&◌, ◌||◌, leb, ◌==◌, if◌then◌else◌, Option,
  none, some,
}
use reolinkproxy.Rtsp.Sets.{put, has, add, without, is_some}

-- `rtspSessionState`, the user data of a session; a session without one is as a new one.
pub record Session : Type 0 where
  pub stream : Option ℕ
  pub playing : Bool
  pub talk : Option ℕ

abbrev pub new_session : Session
new_session = record { stream = none; playing = false; talk = none }

-- The sessions, `clients` of each stream handler, `active` of each publisher, and of each talk bridge
-- its publisher, its `refs` and whether its context is done; `bridges` is the number of those made.
pub record Server : Type 0 where
  pub sessions : ℕ → Session
  pub clients : ℕ → List ℕ
  pub active : ℕ → Option ℕ
  pub publisher : ℕ → ℕ
  pub refs : ℕ → ℕ
  pub done : ℕ → Bool
  pub bridges : ℕ

abbrev pub new_server : Server
new_server = record {
  sessions = λ i. new_session;
  clients = λ h. [];
  active = λ p. none;
  publisher = λ b. 0;
  refs = λ b. 0;
  done = λ b. false;
  bridges = 0;
}

pub data Status : Type 0 where
  status_ok bad_request not_found : Status

unfoldable pub attach_session_to_stream : ℕ → ℕ → Server → Server
attach_session_to_stream i h s = record s {
  sessions = put s.sessions i (record (s.sessions i) { stream = some h });
}

unfoldable pub add_client : ℕ → ℕ → Server → Server
add_client h i s = record s { clients = put s.clients h (add i (s.clients h)) }

unfoldable pub remove_client : ℕ → ℕ → Server → Server
remove_client h i s = record s { clients = put s.clients h (without i (s.clients h)) }

-- `finish`.
unfoldable pub finish : ℕ → Server → Server
finish b s =
    let p = s.publisher b in
    if is_some b (s.active p) then record s { active = put s.active p none } else s

-- `close` of a bridge; it does nothing more the second time.
unfoldable pub close_bridge : ℕ → Server → Server
unfolding finish
close_bridge b s = let s' = finish b s in record s' { done = put s'.done b true }

-- `release`, with the `refs` of a bridge that is held, so one or more.
unfoldable pub release : ℕ → Server → Server
unfolding close_bridge
release b s =
    let refs = s.refs b - 1 in
    let released : Server = record s { refs = put s.refs b refs } in
    if leb refs 0 then close_bridge b released else released

unfoldable pub alive : Server → Option ℕ → Option ℕ
alive s none = none
alive s (some b) = if s.done b then none else some b

-- The bridge of publisher `p` that runs.
unfoldable pub running : ℕ → Server → Option ℕ
unfolding alive
running p s = alive s (s.active p)

-- `ensureSessionState` for a session that does not feed `p` yet.
unfoldable pub hold : ℕ → ℕ → Server → Server
hold i b s = record s {
  refs = put s.refs b (s.refs b + 1);
  sessions = put s.sessions i (record (s.sessions i) { talk = some b });
}

unfoldable pub make_bridge : ℕ → Server → Server
make_bridge p s = record s {
  active = put s.active p (some s.bridges);
  publisher = put s.publisher s.bridges p;
  refs = put s.refs s.bridges 0;
  done = put s.done s.bridges false;
  bridges = s.bridges + 1;
}

unfoldable pub ensure_session_state : ℕ → ℕ → Option ℕ → Server → Server
unfolding hold make_bridge
ensure_session_state p i (some b) s = hold i b s
ensure_session_state p i none s = hold i s.bridges (make_bridge p s)

unfoldable pub feeds : ℕ → Server → Option ℕ → Bool
feeds p s none = false
feeds p s (some b) = s.publisher b == p

-- `startBridge`; `inputs` says that an input to bind is there, which is looked at last.
unfoldable pub start_bridge : ℕ → ℕ → Server → Server
unfolding feeds ensure_session_state running
start_bridge p i s =
    if feeds p s (s.sessions i).talk then s else ensure_session_state p i (running p s) s

-- The talk of a session that PLAYs: of a publisher, where the session has a back channel that can be
-- used.
unfoldable pub start_back_channel : Option ℕ → ℕ → Server → Server
unfolding start_bridge
start_back_channel none i s = s
start_back_channel (some p) i s = start_bridge p i s

unfoldable pub set_playing : Bool → ℕ → Server → Server
set_playing playing i s = record s {
  sessions = put s.sessions i (record (s.sessions i) { playing = playing });
}

-- What `OnPlay` does for a session that plays already, or not.
unfoldable pub start_playing : Bool → ℕ → ℕ → Server → Server
unfolding set_playing add_client
start_playing true h i s = s
start_playing false h i s = set_playing true i (add_client h i s)

unfoldable pub play_stream : ℕ → ℕ → Server → Server
unfolding attach_session_to_stream start_playing
play_stream h i s =
    let s' = attach_session_to_stream i h s in start_playing (s'.sessions i).playing h i s'

-- `OnPlay`: what `getStream` and `getTalk` find, and the publisher whose back channel the session has.
unfoldable pub on_play : Option ℕ → Option ℕ → Option ℕ → ℕ → Server → Status × Server
unfolding play_stream start_back_channel
on_play none (some talk) back i s = (bad_request, s)
on_play none none back i s = (not_found, s)
on_play (some h) talk back i s = (status_ok, start_back_channel back i (play_stream h i s))

-- A session lets go of its talk.
unfoldable pub leave_talk : Option ℕ → ℕ → Server → Server
unfolding release
leave_talk none i s = s
leave_talk (some b) i s =
    let s' = release b s in
    record s' { sessions = put s'.sessions i (record (s'.sessions i) { talk = none }) }

-- What `OnPause` and `OnSessionClose` do for the stream of a session that plays, or not.
unfoldable pub stop_playing : Option ℕ → Bool → ℕ → Server → Server
unfolding set_playing remove_client
stop_playing none playing i s = s
stop_playing (some h) false i s = s
stop_playing (some h) true i s = set_playing false i (remove_client h i s)

-- `OnPause`, where the response depends on what the session had.
unfoldable pub pause_status : Option ℕ → Option ℕ → Status
pause_status talk (some h) = status_ok
pause_status (some b) none = status_ok
pause_status none none = not_found

unfoldable pub on_pause : ℕ → Server → Status × Server
unfolding leave_talk stop_playing pause_status
on_pause i s =
    let session = s.sessions i in
    (
      pause_status session.talk session.stream,
      stop_playing session.stream session.playing i (leave_talk session.talk i s),
    )

unfoldable pub on_session_close : ℕ → Server → Server
unfolding leave_talk stop_playing
on_session_close i s =
    let session = s.sessions i in
    leave_talk session.talk i (stop_playing session.stream session.playing i s)

-- What the server and the goroutines of the bridges call: `OnSetup` of a path with a stream, `OnPlay`,
-- `OnRecord` of a path with a talk and an input, `OnPause`, `OnSessionClose`, and the end of a bridge.
pub data Request : Type 0 where
  sets_up : ℕ → ℕ → Request
  plays : Option ℕ → Option ℕ → Option ℕ → ℕ → Request
  records : ℕ → ℕ → Request
  pauses : ℕ → Request
  closes : ℕ → Request
  bridge_ends : ℕ → Request

unfoldable pub perform : Server → Request → Server
unfolding attach_session_to_stream on_play start_bridge on_pause on_session_close close_bridge
perform s (sets_up i h) = attach_session_to_stream i h s
perform s (plays stream talk back i) = (on_play stream talk back i s).1
perform s (records p i) = start_bridge p i s
perform s (pauses i) = (on_pause i s).1
perform s (closes i) = on_session_close i s
perform s (bridge_ends b) = close_bridge b s

unfoldable pub run : Server → List Request → Server
unfolding perform
run s [] = s
run s (r ∷ requests) = run (perform s r) requests
