-- ===== src/View/Tests.antt =====
-- The theorem of the views on a mode that is set.
use rtc_framework.Base.{◌≡◌, true, List, [], ◌∷◌, some, arith, if◌then◌else◌}
use rtc_framework.View.Types.{ViewMode, ViewControlDecodeStatus, encoded_ok}
use rtc_framework.View.Codec.{encode_view_control, decode_view_control}
use rtc_framework.View.Modes.{
  get_mode, next_plan, Call, sets, do_calls, is_mode, streams, chosen_view_is_sent,
}

abbrev to_the_rear : List Call
to_the_rear = sets 4 ViewMode.surround_rear ∷ []

chosen_view_is_sent_example :
    let mode = get_mode 4 (do_calls to_the_rear []) in
    let e = encode_view_control 9 mode in
    let d = decode_view_control (some e.payload) in
    (encoded_ok e ≡ true)
    × ((d.status ≡ ViewControlDecodeStatus.decode_ok)
        × ((d.envelope.enable_view ≡ mode)
            × (streams (next_plan d.envelope.enable_view)
                ≡ (if is_mode mode ViewMode.binocular then 2 else 1))))
chosen_view_is_sent_example = chosen_view_is_sent to_the_rear 4 9 (omega arith)
