-- ===== src/Frames/Laws.antt =====
-- How the cuts of streams into packets fit together.
use mathlib.Core.List.{flatten}
use reechat_base.Base.{
  ℕ, ◌+◌, ◌≤◌, ◌<◌, ◌≡◌, refl, sym, ap, ap₂, ◌∙◌, List, [], ◌∷◌, ◌++◌, length, take, drop,
  append_assoc, arith, take-append_left, length-append, take-all, drop-append_left, drop-all,
}
use reechat_base.Endian.{Host, of_memory}
use reechat_base.Frames.{
  payload_length, IsFrame, Verdict, waiting, Parses, short, unfinished, unlawful, packet,
}

module _ (host : Host) where
  payload_length-append :
      (xs ys : List ℕ) → 2 ≤ length xs → payload_length host (xs ++ ys) ≡ payload_length host xs
  payload_length-append xs ys h = ap (of_memory host) (take-append_left 2 xs ys h)

  -- A stream that begins with a whole packet begins with that one only.
  pub frame_unique :
      (f g xs ys : List ℕ)
      → IsFrame host f
      → IsFrame host g
      → f ++ xs ≡ g ++ ys
      → (f ≡ g) × (xs ≡ ys)
  frame_unique f g xs ys p q e =
      let same_head : payload_length host f ≡ payload_length host g =
        sym (payload_length-append f xs p.headed)
        ∙ ap (payload_length host) e
        ∙ payload_length-append g ys q.headed in
      let n : ℕ = length f in
      let same : length f ≡ length g = omega (arith, p.exact, q.exact) in
      let front = λ (a b : List ℕ) (k : length a ≡ n).
        take-append_left n a b (omega arith) ∙ take-all n a (omega arith) in
      let back = λ (a b : List ℕ) (k : length a ≡ n).
        drop-append_left n a b (omega arith) ∙ ap (λ l. l ++ b) (drop-all n a (omega arith)) in
      (
        sym (front f xs refl) ∙ ap (take n) e ∙ front g ys (sym same),
        sym (back f xs refl) ∙ ap (drop n) e ∙ back g ys (sym same),
      )

  -- What the first two bytes of a stream say if a whole packet stands at its front.
  pub frame_first :
      (bytes f rest : List ℕ)
      → IsFrame host f
      → bytes ≡ f ++ rest
      → (payload_length host bytes + 2 ≤ length bytes)
        × (0 < payload_length host bytes)
        × (payload_length host bytes ≤ 65535)
  frame_first bytes f rest p e =
      let exact = p.exact in
      let filled = p.filled in
      let size = ap length e ∙ length-append f rest in
      let head = ap (payload_length host) e ∙ payload_length-append f rest p.headed in
      let small = p.small in (omega arith, omega arith, omega arith)

-- The packets and the rest make up the stream: no byte is lost or made up.
pub Parses-flatten :
    {host : Host} {bytes left : List ℕ} {packets : List (List ℕ)} {verdict : Verdict}
    → Parses host bytes packets left verdict
    → bytes ≡ flatten packets ++ left
unfolding flatten
Parses-flatten (short bytes h) = refl
Parses-flatten (unfinished bytes h p u q) = refl
Parses-flatten (unlawful bytes h p) = refl
Parses-flatten (packet {left = left} {packets = packets} frame p e rest) =
    e ∙ ap (◌++◌ frame) (Parses-flatten rest) ∙ sym (append_assoc frame (flatten packets) left)

-- A stream is cut in one way only.
pub Parses-unique :
    {host : Host} {bytes left right : List ℕ} {packets others : List (List ℕ)} {v w : Verdict}
    → Parses host bytes packets left v
    → Parses host bytes others right w
    → (packets ≡ others) × (left ≡ right) × (v ≡ w)
Parses-unique (short bytes h) (short _ k) = (refl, refl, refl)
Parses-unique (short bytes h) (unfinished _ k p u q) = absurd (omega arith)
Parses-unique (short bytes h) (unlawful _ k p) = absurd (omega arith)
Parses-unique {host} (short bytes h) (packet {rest = rest} frame f e _) =
    absurd (omega (arith, frame_first host bytes frame rest f e))
Parses-unique (unfinished bytes h p u q) (short _ k) = absurd (omega arith)
Parses-unique (unfinished bytes h p u q) (unfinished _ _ _ _ _) = (refl, refl, refl)
Parses-unique (unfinished bytes h p u q) (unlawful _ k z) = absurd (omega arith)
Parses-unique {host} (unfinished bytes h p u q) (packet {rest = rest} frame f e _) =
    absurd (omega (arith, frame_first host bytes frame rest f e))
Parses-unique (unlawful bytes h p) (short _ k) = absurd (omega arith)
Parses-unique (unlawful bytes h p) (unfinished _ k z u _) = absurd (omega arith)
Parses-unique (unlawful bytes h p) (unlawful _ _ _) = (refl, refl, refl)
Parses-unique {host} (unlawful bytes h p) (packet {rest = rest} frame f e _) =
    absurd (omega (arith, frame_first host bytes frame rest f e))
Parses-unique {host} (packet {rest = rest} frame f e r) (short bytes k) =
    absurd (omega (arith, frame_first host bytes frame rest f e))
Parses-unique {host} (packet {rest = rest} frame f e r) (unfinished bytes k p u q) =
    absurd (omega (arith, frame_first host bytes frame rest f e))
Parses-unique {host} (packet {rest = rest} frame f e r) (unlawful bytes k p) =
    absurd (omega (arith, frame_first host bytes frame rest f e))
Parses-unique {host} (packet {rest = xs} frame f e r) (packet {rest = ys} other g d s) =
    let (same, next) = frame_unique host frame other xs ys f g (sym e ∙ d) in
    let (a, b, c) = Parses-unique r (rw next s) in (ap₂ ◌∷◌ same a, b, c)

-- What has been cut off stays so when more bytes arrive, and the rest is looked at again with them.
pub Parses-append :
    {host : Host} {xs left rest : List ℕ} {packets more : List (List ℕ)} {v : Verdict} (ys : List ℕ)
    → Parses host xs packets left waiting
    → Parses host (left ++ ys) more rest v
    → Parses host (xs ++ ys) (packets ++ more) rest v
Parses-append ys (short bytes h) q = q
Parses-append ys (unfinished bytes h p u k) q = q
Parses-append ys (packet {rest = rest} frame f e r) q =
    packet frame f (ap (λ l. l ++ ys) e ∙ append_assoc frame rest ys) (Parses-append ys r q)

-- A stream of whole packets is cut into them.
abbrev pub AllFrames : Host → List (List ℕ) → Type 0
AllFrames host [] = Unit {0}
AllFrames host (f ∷ fs) = IsFrame host f × AllFrames host fs

pub Parses-frames :
    {host : Host} (frames : List (List ℕ))
    → AllFrames host frames
    → Parses host (flatten frames) frames [] waiting
unfolding flatten
Parses-frames [] h = short [] (omega arith)
Parses-frames (f ∷ fs) h = packet f h.0 refl (Parses-frames fs h.1)
