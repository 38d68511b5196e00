-- ===== src/Client/Preview.antt =====
-- The reader of a preview, `StartPreview` of pkg/baichuan/client.go: from the messages that its
-- subscription holds to media packets.
use reolinkproxy.Base.{
  ℕ, List, [], ◌∷◌, ◌++◌, Bool, true, false, not, ◌&&◌, ltb, ◌==◌, if◌then◌else◌, Option, none,
  some,
}
use reolinkproxy.Message.{Message}
use reolinkproxy.Media.{
  MediaPacket, MediaError, Appended, Status, waiting, broken, panicked, out_of_fuel, append,
}
use reolinkproxy.Client.{Subscription, deliver}

pub data ReaderError : Type 0 where
  lost_messages : ℕ → ReaderError
  not_parsed : MediaError → ReaderError
  parser_panicked : ReaderError
  was_stopped : ReaderError

-- The parser's buffer, the packets that were handed on, and why the reader ended, if it did.
pub record Reader : Type 0 where
  pub rest : List ℕ
  pub packets : List MediaPacket
  pub error : Option ReaderError

abbrev pub new_reader : Reader
new_reader = record { rest = []; packets = []; error = none }

abbrev pub is_empty : List ℕ → Bool
is_empty [] = true
is_empty (b ∷ bs) = false

-- A message that is fed to the parser; the others are passed over.
unfoldable pub is_wanted : ℕ → Message → Bool
is_wanted stream_type m =
    m.binary && (not (is_empty m.payload) && m.header.stream_type == stream_type)

-- What the parser makes of a payload; after an error the packets of this message are lost too.
unfoldable pub fed : Reader → Appended → Status → Reader
fed r a waiting = record r { rest = a.rest; packets = r.packets ++ a.packets }
fed r a (broken e) = record r { error = some (not_parsed e) }
fed r a panicked = record r { error = some parser_panicked }
fed r a out_of_fuel = r

unfoldable pub feed : Reader → List ℕ → Reader
unfolding fed
feed r payload = let a = append r.rest payload in fed r a a.status

-- A round of the reader's loop on a message, with the losses that its subscription has counted.
unfoldable pub receive : ℕ → ℕ → Message → Reader → Reader
unfolding feed is_wanted
receive stream_type dropped m r =
    if not (is_wanted stream_type m)
    then r
    else if ltb 0 dropped
    then record r { error = some (lost_messages dropped) }
    else feed r m.payload

-- The subscription and the reader.
pub record Preview : Type 0 where
  pub sub : Subscription
  pub reader : Reader

abbrev pub new_preview : ℕ → Preview
new_preview msg_id = record {
  sub = record { msg_id = msg_id; queue = []; dropped = 0 };
  reader = new_reader;
}

-- What happens to them, in any order: `dispatch` has a message, the reader has a turn, or it sees that it
-- is stopped or the client closed, between its turns; the packets of a turn are all taken.
pub data PreviewEvent : Type 0 where
  arrives : Message → PreviewEvent
  reads : PreviewEvent
  stops : PreviewEvent

abbrev pub has_ended : Reader → Bool
has_ended r = elim r.error [ none ↦ false | some e ↦ true ]

unfoldable pub take_turn : ℕ → List Message → Preview → Preview
unfolding receive
take_turn stream_type [] p = p
take_turn stream_type (m ∷ queue) p = if has_ended p.reader then p else record {
  sub = record p.sub { queue = queue };
  reader = receive stream_type p.sub.dropped m p.reader;
}

unfoldable pub stop_reader : Reader → Reader
stop_reader r = if has_ended r then r else record r { error = some was_stopped }

unfoldable pub preview_step : ℕ → Preview → PreviewEvent → Preview
unfolding take_turn stop_reader deliver
preview_step stream_type p (arrives m) = record p {
  sub = if p.sub.msg_id == m.header.msg_id then deliver m p.sub else p.sub;
}
preview_step stream_type p stops = record p { reader = stop_reader p.reader }
preview_step stream_type p reads = take_turn stream_type p.sub.queue p

unfoldable pub preview_run : ℕ → Preview → List PreviewEvent → Preview
unfolding preview_step
preview_run stream_type p [] = p
preview_run stream_type p (e ∷ events) =
    preview_run stream_type (preview_step stream_type p e) events
