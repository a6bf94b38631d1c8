-- ===== src/Examples/Resume.antt =====
-- The theorems on packages/rsocket-core/src/Resume.ts, applied.
use rsocket_js.Common.{◌≡◌, refl, [], ◌∷◌, ◌++◌, List, true}
use rsocket_js.Codecs.{size_of_frame}
use rsocket_js.Codecs.Requests.{size_of_payload_frame, size_of_request_n_frame}
use rsocket_js.Codecs.Payload.{get_payload_length}
use rsocket_js.Frames.Flags
use rsocket_js.Resume.Link.{
  Event, transmit, arrive, acknowledge, resume, new_link, happen, happen_all, transmitted,
}
use rsocket_js.Resume.Sizes.{IsSized}
use rsocket_js.Resume.Delivery.{
  AllSizedEvents, arrivals, happen_all-transmitted, resume-transmitted,
}
use rsocket_js.Examples.{small_runtime, small_payload, small_request_n}

-- The second frame is lost with the connection.
abbrev happened : List Event
happened =
    transmit small_payload
    ∷ arrive
    ∷ transmit small_request_n
    ∷ resume
    ∷ arrive
    ∷ acknowledge
    ∷ transmit small_payload
    ∷ []

small_payload-IsSized : IsSized small_runtime small_payload
unfolding size_of_frame size_of_payload_frame get_payload_length Flags.has_metadata
small_payload-IsSized = record { rest = 12; sized = refl }

small_request_n-IsSized : IsSized small_runtime small_request_n
unfolding size_of_frame size_of_request_n_frame
small_request_n-IsSized = record { rest = 9; sized = refl }

abbrev AllHappenedSized : Type 0
AllHappenedSized = AllSizedEvents small_runtime happened

happened-AllSized : AllHappenedSized
happened-AllSized = (
  small_payload-IsSized,
  (tt, (small_request_n-IsSized, (tt, (tt, (tt, (small_payload-IsSized, tt)))))),
)

happen_all-transmitted_example :
    ((happen_all small_runtime happened new_link).received
        ++ (happen_all small_runtime happened new_link).flight
      ≡ transmitted happened)
    × ((happen_all small_runtime happened new_link).consistent ≡ true)
happen_all-transmitted_example = happen_all-transmitted small_runtime happened happened-AllSized

resume-transmitted_example :
    (happen_all small_runtime
      (arrivals small_runtime
        (happen small_runtime resume (happen_all small_runtime happened new_link)).flight)
      (happen small_runtime resume (happen_all small_runtime happened new_link))).received
    ≡ transmitted happened
resume-transmitted_example = resume-transmitted small_runtime happened happened-AllSized
