-- ===== src/Rtsp/Rebuild.antt =====
-- A session that is built anew reaches every mirror (pkg/bridge/rtsp.go).
use reolinkproxy.Base.{
  ℕ, ◌≡◌, refl, List, [], ◌∷◌, ◌++◌, Bool, true, false, if◌then◌else◌, Option, none, some,
  Bool-cases, inl, inr, arith, ◌==◌,
}
use reolinkproxy.Rtsp.Sets.{has}
use reolinkproxy.Rtsp.Mirrors.{
  Node, Handler, Mirrors, handler, no_mirror, mirrored, ReadyError, not_attached, present,
  open_session, ready_stream, ready_node, after_node, after_mirror, set_ready, set_all_ready, reset,
  reset_all, carries, write_packet, write_all, nodes, all_nodes,
}

has-append : (m : ℕ) (as_ bs : List ℕ) → has m as_ ≡ true → has m (as_ ++ bs) ≡ true
has-append m [] bs h = absurd (cc h)
has-append m (a ∷ as_) bs h = elim (Bool-cases (m == a)) [
  | inl same ↦ rw same refl
  | inr other ↦ rw other (has-append m as_ bs (ground (arith, h, other)))
]

module _ (initialize : List ℕ → Bool) (medias : List (Option ℕ)) (m : ℕ)
    (listed : has m (present medias) ≡ true) where
  open_session-carries :
      (all : List ℕ) (n : Node)
      → has m all ≡ true
      → (open_session initialize all n).0 ≡ none
      → carries m (open_session initialize all n).1.stream ≡ true
  unfolding open_session carries
  open_session-carries all n h e = ground (arith, h, e)

  ready_stream-carries :
      (n : Node) (stream : Option (List ℕ))
      → stream ≡ none
      → (ready_stream initialize medias n stream).0 ≡ none
      → carries m (ready_stream initialize medias n stream).1.stream ≡ true
  unfolding ready_stream
  ready_stream-carries n none c e =
      open_session-carries (present medias ++ n.extras) n
        (has-append m (present medias) n.extras listed) e
  ready_stream-carries n (some described) c e = absurd (cc c)

  ready_node-carries :
      (n : Node)
      → n.stream ≡ none
      → (ready_node initialize medias n).0 ≡ none
      → carries m (ready_node initialize medias n).1.stream ≡ true
  unfolding ready_node
  ready_node-carries n c e =
      elim n.attached
          as (λ b.
            let r =
              if b then ready_stream initialize medias n n.stream else (some not_attached, n) in
            r.0 ≡ none → carries m r.1.stream ≡ true) [
              | true ↦ ready_stream-carries n n.stream c
              | false ↦ λ h. absurd (cc h)
            ]
        e

  after_node-write :
      (failed : Option ReadyError) (n : Node) (old : Mirrors) (later : Option ReadyError × Mirrors)
      → (failed ≡ none → carries m n.stream ≡ true)
      → (later.0 ≡ none → write_all m later.1 ≡ all_nodes later.1)
      → (after_node failed n old later).0 ≡ none
      → write_packet m (after_node failed n old later).1 ≡ nodes (after_node failed n old later).1
  unfolding after_node write_packet nodes
  after_node-write (some e) n old later c w h = absurd (cc h)
  after_node-write none n old (failed, mirrors) c w h = rw (c refl, w h) refl

  after_mirror-write :
      (failed : Option ReadyError) (x : Handler) (old : Mirrors)
      (later : Option ReadyError × Mirrors)
      → (failed ≡ none → write_packet m x ≡ nodes x)
      → (later.0 ≡ none → write_all m later.1 ≡ all_nodes later.1)
      → (after_mirror failed x old later).0 ≡ none
      → write_all m (after_mirror failed x old later).1
        ≡ all_nodes (after_mirror failed x old later).1
  unfolding after_mirror write_packet nodes
  after_mirror-write (some e) x old later c w h = absurd (cc h)
  after_mirror-write none x old (failed, mirrors) c w h = rw (c refl, w h) refl

  mutual
    unfolding set_ready reset write_packet nodes

    write_packet-nodes :
        (h : Handler)
        → (set_ready initialize medias (reset h)).0 ≡ none
        → write_packet m (set_ready initialize medias (reset h)).1
          ≡ nodes (set_ready initialize medias (reset h)).1
    write_packet-nodes (handler n mirrors) e =
        let cleared : Node = record n { stream = none } in
        let (failed, n') = ready_node initialize medias cleared in
        after_node-write failed n' (reset_all mirrors)
          (set_all_ready initialize medias (reset_all mirrors)) (ready_node-carries cleared refl)
          (write_all-all_nodes mirrors) e

    write_all-all_nodes :
        (mirrors : Mirrors)
        → (set_all_ready initialize medias (reset_all mirrors)).0 ≡ none
        → write_all m (set_all_ready initialize medias (reset_all mirrors)).1
          ≡ all_nodes (set_all_ready initialize medias (reset_all mirrors)).1
    write_all-all_nodes no_mirror e = refl
    write_all-all_nodes (mirrored h mirrors) e =
        let (failed, h') = set_ready initialize medias (reset h) in
        after_mirror-write failed h' (reset_all mirrors)
          (set_all_ready initialize medias (reset_all mirrors)) (write_packet-nodes h)
          (write_all-all_nodes mirrors) e

-- After a rebuild that no handler refuses, every packet of a media it was given goes out on the handler
-- and all its mirrors, and their mirrors.
pub write_packet-rebuilt :
    (initialize : List ℕ → Bool) (medias : List (Option ℕ)) (m : ℕ) (h : Handler)
    → has m (present medias) ≡ true
    → (set_ready initialize medias (reset h)).0 ≡ none
    → write_packet m (set_ready initialize medias (reset h)).1
      ≡ nodes (set_ready initialize medias (reset h)).1
write_packet-rebuilt initialize medias m h listed e =
    write_packet-nodes initialize medias m listed h e
