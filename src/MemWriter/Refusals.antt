-- ===== src/MemWriter/Refusals.antt =====
-- valuestore_GEN_.go, memWriter: the requests that it refuses.
use valuestore.Base.{
  ◌≡◌, refl, Bool, true, false, not, ◌&&◌, Option, none, some, ltb, if◌then◌else◌, length,
}
use valuestore.Package.{Error, disabled, value_too_long}
use valuestore.LocMap.{LocMap}
use valuestore.MemWriter.{
  Limits, WriteReq, Writer, Turn, place, running, refused, request, handle_request, turn,
}

-- The error that a request meets.
abbrev pub refusal : Limits → Bool → WriteReq → Option Error
refusal lim enabled req =
    if not enabled && not req.internal
    then some disabled
    else if ltb lim.value_cap (length req.value)
    then some value_too_long
    else none

pub refusal-external :
    (lim : Limits) (enabled : Bool) (req : WriteReq)
    → req.internal ≡ false
    → refusal lim enabled req ≡ (
        if not enabled
        then some disabled
        else if ltb lim.value_cap (length req.value)
        then some value_too_long
        else none)
refusal-external lim true req h = refl
refusal-external lim false req h = simp h refl

refused_tests :
    (l : LocMap) (w : Writer l) (t : Turn l) (off long : Bool) (e : Error)
    → (if off then some disabled else if long then some value_too_long else none) ≡ some e
    → (if off
        then running w (some (refused disabled))
        else if long
        then running w (some (refused value_too_long))
        else t)
      ≡ running w (some (refused e))
refused_tests l w t true long e h = cc
refused_tests l w t false true e h = cc
refused_tests l w t false false e h = absurd cc

-- A refused request changes nothing.
pub turn-refusal :
    (l : LocMap) (lim : Limits) (w : Writer l) (req : WriteReq) (e : Error)
    → refusal lim w.enabled req ≡ some e
    → turn l lim w (request req) ≡ running w (some (refused e))
unfolding turn handle_request
turn-refusal l lim w req e h =
    refused_tests l w (place l lim w w.mem_block req) (not w.enabled && not req.internal)
      (ltb lim.value_cap (length req.value)) e h
