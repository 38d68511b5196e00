-- ===== src/Examples/Audio.antt =====
-- The theorems on the audio of streams and talks, applied to concrete runs.
use reolinkproxy.Base.{
  ℕ, ◌<◌, ◌≡◌, refl, List, [], ◌∷◌, ◌++◌, Bool, true, false, none, some, All, arith, length,
  replicate,
}
use reolinkproxy.Base.Int.{ℤ, pos, negsuc}
use reolinkproxy.Codec.Adpcm.{State}
use reolinkproxy.Talk.Resampler.{new_pcm_resampler}
use reolinkproxy.Talk.Blocks.{Bridge, run_bridge}
use reolinkproxy.Talk.Chunks.{heard, concat, Encodes}
use reolinkproxy.Talk.Whole.{run_bridge-Encodes}
use reolinkproxy.Rtsp.Mirrors.{
  Node, Handler, handler, no_mirror, mirrored, set_ready, reset, write_packet, nodes, present,
}
use reolinkproxy.Rtsp.Sets.{has}
use reolinkproxy.Rtsp.Rebuild.{write_packet-rebuilt}
use reolinkproxy.Rtsp.Audio.{Arrival, new_publisher}
use reolinkproxy.Rtsp.AudioSteps.{Packet, aac_packet, adpcm_packet, audio_spans}
use reolinkproxy.Rtsp.AudioClock.{AllFollow-audio_spans}
use reolinkproxy.Timing.Serial.{AllFollow}

abbrev encoder : State
encoder = record { predicted = pos 0; index = 0 }

-- A talk at 8000 samples per second, for a camera that takes 16000.
abbrev bridge : Bridge
bridge = record {
  encoder = encoder;
  pcm_buffer = [];
  resampler = new_pcm_resampler 8000 16000;
  blocks = [];
}

abbrev arrived : List (List ℤ)
arrived = (pos 100 ∷ pos 300 ∷ negsuc 40 ∷ []) ∷ (pos 7 ∷ []) ∷ []

abbrev queued : List (List ℤ)
queued = (negsuc 900 ∷ []) ∷ []

run_bridge-Encodes_example :
    let b' = run_bridge 4 (λ k. false) arrived queued bridge in
    (chunks : List (List ℤ)) × (k : ℕ) × (concat chunks
      ≡ heard (new_pcm_resampler 8000 16000) (arrived ++ queued) ++ replicate k (pos 0))
    × (k < 4)
    × All (λ c. length c ≡ 4) chunks
    × Encodes encoder chunks b'.blocks b'.encoder
run_bridge-Encodes_example =
    run_bridge-Encodes 4 (λ k. false) (omega arith) refl (λ k. refl) encoder arrived queued bridge
      refl refl refl

-- A handler with video 7 that audio 8 is to join, and a mirror that has a back channel of its own.
abbrev main_node : Node
main_node = record {
  attached = true;
  stream = some (7 ∷ []);
  clients = 1 ∷ [];
  extras = [];
  last_interest = 0;
}

abbrev mirror_node : Node
mirror_node = record {
  attached = true;
  stream = none;
  clients = [];
  extras = 9 ∷ [];
  last_interest = 0;
}

abbrev tree : Handler
tree = handler main_node (mirrored (handler mirror_node no_mirror) no_mirror)

abbrev accepts : List ℕ → Bool
accepts medias = true

tree-ready : (set_ready accepts (some 7 ∷ some 8 ∷ []) (reset tree)).0 ≡ none
unfolding set_ready reset
tree-ready = refl

listed : has 8 (present (some 7 ∷ some 8 ∷ [])) ≡ true
unfolding present
listed = refl

write_packet-rebuilt_example :
    write_packet 8 (set_ready accepts (some 7 ∷ some 8 ∷ []) (reset tree)).1
    ≡ nodes (set_ready accepts (some 7 ∷ some 8 ∷ []) (reset tree)).1
write_packet-rebuilt_example =
    write_packet-rebuilt accepts (some 7 ∷ some 8 ∷ []) 8 tree listed tree-ready

-- A packet with a clock that is authoritative, or not.
abbrev clocked : Bool → Arrival
clocked authoritative = record {
  time = record { microseconds = 5000000; valid = true; authoritative = authoritative };
  stamps = some (0 ∷ []);
  creates = true;
  handler_ready = true;
  publish = true;
}

-- The clock stands still, and the audio changes its kind.
abbrev packets : List Packet
packets =
    aac_packet (some (16000, 1, 1)) (clocked true)
    ∷ aac_packet none (clocked false)
    ∷ aac_packet (some (16000, 1, 1)) (clocked true)
    ∷ adpcm_packet 512 (clocked false)
    ∷ []

AllFollow-audio_spans_example : AllFollow (audio_spans new_publisher packets)
AllFollow-audio_spans_example =
    AllFollow-audio_spans packets
      ((omega arith, tt), ((omega arith, tt), ((omega arith, tt), ((omega arith, tt), tt))))
