-- ===== src/Rtai/Context.antt =====
-- Whether the caller is a real-time task, sys/rtai/include/urt_sys_utils.h, and the checks of
-- include/urt_debug.h.
use urt.Base.{◌≡◌, refl, Bool, true, false, not, Option, none, some, if◌then◌else◌, arith}
use urt.Base.Int.{ℤ, pos, ltb_ℤ}

-- urt_is_rt_context: the caller's RTAI task with its `is_hard`, if there is one.
unfoldable pub is_rt_context : Bool → Option ℤ → Bool
is_rt_context in_kernel none = false
is_rt_context in_kernel (some is_hard) = if in_kernel then ltb_ℤ (pos 0) is_hard else true

-- urt_is_nonrt_context
unfoldable pub is_nonrt_context : Bool → Option ℤ → Bool
is_nonrt_context in_kernel none = true
is_nonrt_context in_kernel (some is_hard) = if in_kernel then not (ltb_ℤ (pos 0) is_hard) else false

-- URT_CHECK_RT_CONTEXT and URT_CHECK_NONRT_CONTEXT: whether they report the caller.
unfoldable pub check_rt_context : Bool → Option ℤ → Bool
unfolding is_rt_context
check_rt_context in_kernel task = not (is_rt_context in_kernel task)

unfoldable pub check_nonrt_context : Bool → Option ℤ → Bool
unfolding is_nonrt_context
check_nonrt_context in_kernel task = not (is_nonrt_context in_kernel task)

-- Exactly one of the two checks reports a caller.
pub checks_exclusive :
    (in_kernel : Bool) (task : Option ℤ)
    → check_nonrt_context in_kernel task ≡ not (check_rt_context in_kernel task)
unfolding check_rt_context check_nonrt_context
checks_exclusive in_kernel none = refl
checks_exclusive true (some is_hard) = ground arith
checks_exclusive false (some is_hard) = refl
