-- ===== src/Knowledge/Display.antt =====
-- emergence/memory/knowledge_index.py: sizes and times as people read them. The digits of a number
-- are the number.
use Prim.Native.Nat.{◌/◌}
use emergence_os.Base.{ℕ, ◌-◌, Option, none, some, ltb, leb, if◌then◌else◌}

pub data SizeText : Type 0 where
  megabytes kilobytes bytes : ℕ → SizeText

unfoldable pub format_bytes : (size : ℕ) → SizeText
format_bytes size =
    if leb 1048576 size
    then megabytes (size / 1048576)
    else if leb 1024 size
    then kilobytes (size / 1024)
    else bytes size

pub data RelativeTime : Type 0 where
  never just_now : RelativeTime
  minutes_ago hours_ago days_ago : ℕ → RelativeTime

-- `format_relative_time` for a time, by the seconds since it.
since : (seconds : ℕ) → RelativeTime
since seconds =
    if ltb seconds 60
    then just_now
    else if ltb seconds 3600
    then minutes_ago (seconds / 60)
    else if ltb seconds 86400
    then hours_ago (seconds / 3600)
    else days_ago (seconds / 86400)

-- Times are microseconds. A time that is still to come is just now.
unfoldable pub format_relative_time : (time : Option ℕ) → (now : ℕ) → RelativeTime
unfolding since
format_relative_time none now = never
format_relative_time (some time) now =
    if ltb now time then just_now else since ((now - time) / 1000000)
