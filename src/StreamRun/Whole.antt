-- ===== src/StreamRun/Whole.antt =====
-- How a video format grows with the parameter sets of the frames (pkg/bridge/stream_run.go).
use reolinkproxy.Base.{
  ◌≤◌, ◌≡◌, refl, List, [], ◌∷◌, Bool, true, false, ◌&&◌, ◌||◌, if◌then◌else◌, length, Option, none,
  some, arith, ◌⊎◌, inl, inr, ap,
}
use reolinkproxy.Media.{VideoCodec, h264, h265}
use reolinkproxy.Translator.{Nal, extract_h264_params, extract_h265_params}
use reolinkproxy.StreamRun.Format.{
  VideoFormat, h264_format, h265_format, codec_matches_format, coalesce, learn, learn_h264,
  learn_h265, is_set, ready_to_expose,
}
use reolinkproxy.StreamRun.{learn_format, exposable}

-- A format of the codec with all its parameter sets, none shorter than four bytes.
abbrev pub IsWhole : VideoCodec → Option VideoFormat → Type 0
IsWhole h265 (some (h265_format vps sps pps)) =
    (4 ≤ length vps) × (4 ≤ length sps) × (4 ≤ length pps)
IsWhole h264 (some (h264_format sps pps)) = (4 ≤ length sps) × (4 ≤ length pps)
IsWhole h265 (some (h264_format sps pps)) = ⊥
IsWhole h264 (some (h265_format vps sps pps)) = ⊥
IsWhole codec none = ⊥

-- A parameter set that is kept is not short.
abbrev pub IsKept : Nal → Type 0
IsKept n = (n ≡ []) ⊎ (4 ≤ length n)

abbrev pub AllKept : Option VideoFormat → Type 0
AllKept none = Unit {0}
AllKept (some (h265_format vps sps pps)) = IsKept vps × IsKept sps × IsKept pps
AllKept (some (h264_format sps pps)) = IsKept sps × IsKept pps

abbrev pub Matches : VideoCodec → Option VideoFormat → Type 0
Matches codec none = ⊥
Matches codec (some format) = codec_matches_format codec format ≡ true

coalesce-IsKept : (a b : Nal) → IsKept b → IsKept (coalesce a b)
unfolding coalesce
coalesce-IsKept a b h = ground arith

coalesce_set : (a b : Nal) → is_set b ≡ true → is_set (coalesce a b) ≡ true
unfolding coalesce
coalesce_set [] b h = h
coalesce_set (x ∷ xs) b h = ground arith

set_long : (n : Nal) → IsKept n → is_set n ≡ true → 4 ≤ length n
set_long n (inl empty) e = absurd (cc (ap is_set empty, e))
set_long n (inr long) e = long

-- From one format to the next: what is kept is not short, the format stays of its codec, and stays
-- exposable if it was.
pub record Grows (codec : VideoCodec) (g h : Option VideoFormat) : Type 0 where
  pub kept : AllKept g → AllKept h
  pub same : Matches codec g → Matches codec h
  pub shown : exposable g ≡ true → exposable h ≡ true

and_mono :
    (a b c d : Bool)
    → (a ≡ true → c ≡ true)
    → (b ≡ true → d ≡ true)
    → (a && b) ≡ true
    → (c && d) ≡ true
and_mono true true c d f g e = rw (f refl, g refl) refl
and_mono true false c d f g e = cc e
and_mono false b c d f g e = cc e

h265_any :
    (codec : VideoCodec) (a b c v s p : Nal)
    → Matches codec (some (h265_format a b c))
    → Matches codec (some (h265_format v s p))
unfolding codec_matches_format
h265_any h265 a b c v s p m = refl
h265_any h264 a b c v s p m = cc m

h264_any :
    (codec : VideoCodec) (a b s p : Nal)
    → Matches codec (some (h264_format a b))
    → Matches codec (some (h264_format s p))
unfolding codec_matches_format
h264_any h264 a b s p m = refl
h264_any h265 a b s p m = cc m

Grows-same : (codec : VideoCodec) (g : Option VideoFormat) → Grows codec g g
Grows-same codec g = record { kept = λ k. k; same = λ m. m; shown = λ e. e }

Grows-if :
    (codec : VideoCodec) (c : Bool) (g h : VideoFormat)
    → Grows codec (some g) (some h)
    → Grows codec (some g) (some (if c then h else g))
Grows-if codec true g h r = r
Grows-if codec false g h r = Grows-same codec (some g)

pub learn_format-Grows :
    (codec : VideoCodec) (nalus : List Nal) (g : Option VideoFormat)
    → Grows codec g (learn_format nalus g)
unfolding learn learn_h265 learn_h264 ready_to_expose
learn_format-Grows codec nalus none = Grows-same codec none
learn_format-Grows codec nalus (some (h265_format vps sps pps)) =
    let (v, s, p) = extract_h265_params nalus in
    Grows-if codec (is_set v || (is_set s || is_set p)) (h265_format vps sps pps)
      (h265_format (coalesce v vps) (coalesce s sps) (coalesce p pps))
      (record {
        kept =
            λ k. (coalesce-IsKept v vps k.0, coalesce-IsKept s sps k.1, coalesce-IsKept p pps k.2);
        same = h265_any codec vps sps pps _ _ _;
        shown =
            and_mono (is_set vps) (is_set sps && is_set pps) _ _ (coalesce_set v vps)
              (and_mono (is_set sps) (is_set pps) _ _ (coalesce_set s sps) (coalesce_set p pps));
      })
learn_format-Grows codec nalus (some (h264_format sps pps)) =
    let (s, p) = extract_h264_params nalus in
    Grows-if codec (is_set s || is_set p) (h264_format sps pps)
      (h264_format (coalesce s sps) (coalesce p pps))
      (record {
        kept = λ k. (coalesce-IsKept s sps k.0, coalesce-IsKept p pps k.1);
        same = h264_any codec sps pps _ _;
        shown = and_mono (is_set sps) (is_set pps) _ _ (coalesce_set s sps) (coalesce_set p pps);
      })

and_left : (a b : Bool) → (a && b) ≡ true → (a ≡ true) × (b ≡ true)
and_left true true e = (refl, refl)
and_left true false e = cc e
and_left false b e = cc e

pub Matches-IsWhole :
    (codec : VideoCodec) (format : Option VideoFormat)
    → Matches codec format
    → AllKept format
    → exposable format ≡ true
    → IsWhole codec format
unfolding codec_matches_format ready_to_expose
Matches-IsWhole codec none m k e = absurd m
Matches-IsWhole h265 (some (h265_format vps sps pps)) m (v, s, p) e =
    let (first, others) = and_left (is_set vps) (is_set sps && is_set pps) e in
    let (second, third) = and_left (is_set sps) (is_set pps) others in
    (set_long vps v first, set_long sps s second, set_long pps p third)
Matches-IsWhole h264 (some (h264_format sps pps)) m (s, p) e =
    let (first, second) = and_left (is_set sps) (is_set pps) e in
    (set_long sps s first, set_long pps p second)
Matches-IsWhole h264 (some (h265_format vps sps pps)) m k e = cc m
Matches-IsWhole h265 (some (h264_format sps pps)) m k e = cc m
