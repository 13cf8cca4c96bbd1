-- ===== src/MessageQ/Marks.antt =====
-- The setters of MessageQ: the water marks, their unit, and the flags.
use yat.Common.{ℕ, Bool, ltb, if◌then◌else◌, add64, sub64}
use yat.MessageQ.{MessageQ, WmUnit}

abbrev pub min_lo_water_mark : ℕ
min_lo_water_mark = 8

abbrev pub min_water_marks_diff : ℕ
min_water_marks_diff = 8

-- The difference of the marks is one of `size_t` values.
unfoldable pub raise_hi_wm : MessageQ → MessageQ
raise_hi_wm q =
    if ltb (sub64 q.hi_wm q.lo_wm) min_water_marks_diff
    then record q { hi_wm = add64 q.lo_wm min_water_marks_diff }
    else q

unfoldable pub set_lo_wm : ℕ → MessageQ → MessageQ
unfolding raise_hi_wm
set_lo_wm lo q =
    raise_hi_wm (record q { lo_wm = if ltb lo min_lo_water_mark then min_lo_water_mark else lo })

unfoldable pub set_hi_wm : ℕ → MessageQ → MessageQ
unfolding raise_hi_wm
set_hi_wm hi q = raise_hi_wm (record q { hi_wm = hi })

unfoldable pub set_wm_unit : WmUnit → MessageQ → MessageQ
set_wm_unit u q = record q { wm_unit = u; stats = record (q.stats) { wm_unit = u } }

unfoldable pub enable_timeout_msg : Bool → MessageQ → MessageQ
enable_timeout_msg b q = record q { enable_timeout_msg = b }

unfoldable pub enable_periodic_msg : Bool → MessageQ → MessageQ
enable_periodic_msg b q = record q { enable_periodic_msg = b }

unfoldable pub throw_on_post_msg_timeout : Bool → MessageQ → MessageQ
throw_on_post_msg_timeout b q = record q { throw_on_post_msg_timeout = b }
