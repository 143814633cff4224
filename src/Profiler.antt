-- ===== src/Profiler.antt =====
-- Util/Profiler.h: the times measured per tag, kept by each thread. `none` is undefined behaviour: a
-- tag that does not fit a name, a sum of times beyond `__int64`, or a read past the array.
pub mod Summary
pub mod End
pub mod Recorded
pub mod Report
mod Tests
use game_server_portfolio.Base.{
  strcmp_equal, ℕ, zero, suc, ◌+◌, ◌-◌, ◌*◌, ◌^◌, Bool, true, false, not, ◌||◌, ◌&&◌, List, [], ◌∷◌,
  Option, none, some, ◌==◌, ltb, leb, if◌then◌else◌, length, get_or, set, replicate,
}

abbrev pub profile_max : ℕ
profile_max = 128

-- `_countof(Name)`
abbrev pub name_size : ℕ
name_size = 64

abbrev pub llong_max : ℕ
llong_max = 2 ^ 63 - 1

-- A name is its characters without the `'\0'`. The clock is steady, so that no time is negative.
pub record ProfileData : Type 0 where
  pub flag : Bool
  pub name : List ℕ
  pub total_time : ℕ
  pub min0 : ℕ
  pub min1 : ℕ
  pub max0 : ℕ
  pub max1 : ℕ
  pub call : ℕ

pub record ProfileThreadContext : Type 0 where
  pub profile_data : List ProfileData
  pub thread_id : List ℕ
  pub profile_count : ℕ

-- an object of the class, from its constructor to its destructor
pub record Profiler : Type 0 where
  pub start_time : ℕ
  pub tag : List ℕ

-- what `Initialize` makes of each element
abbrev pub unused : ProfileData
unused = record {
  flag = false;
  name = [];
  total_time = 0;
  min0 = llong_max;
  min1 = llong_max;
  max0 = 0;
  max1 = 0;
  call = 0;
}

unfoldable pub initialize : ProfileThreadContext → ProfileThreadContext
initialize c = record c { profile_data = replicate profile_max unused }

-- `none` is a thread whose `isInit` is not set. What `make_unique` leaves in the array is
-- overwritten.
unfoldable pub check_init : List ℕ → Option ProfileThreadContext → ProfileThreadContext
unfolding initialize
check_init thread_id (some c) = c
check_init thread_id none =
    initialize (record { profile_data = []; thread_id = thread_id; profile_count = 0 })

-- the two least times, and the two greatest, once there is another
unfoldable pub update_min : ℕ → ℕ × ℕ → ℕ × ℕ
update_min t (mn0, mn1) = if ltb t mn0 then (t, mn0) else if ltb t mn1 then (mn0, t) else (mn0, mn1)

unfoldable pub update_max : ℕ → ℕ × ℕ → ℕ × ℕ
update_max t (mx0, mx1) = if ltb mx0 t then (t, mx0) else if ltb mx1 t then (mx0, t) else (mx0, mx1)

-- an element with another time for this tag
unfoldable pub update_data : ProfileData → List ℕ → ℕ → ProfileData
unfolding update_min update_max
update_data d tag t =
    let (mn0, mn1) = update_min t (d.min0, d.min1) in
    let (mx0, mx1) = update_max t (d.max0, d.max1) in
    record {
      flag = true;
      name = if d.flag then d.name else tag;
      total_time = d.total_time + t;
      min0 = mn0;
      min1 = mn1;
      max0 = mx0;
      max1 = mx1;
      call = d.call + 1;
    }

-- `Update`, with the time that has passed.
unfoldable pub update : ProfileThreadContext → ℕ → List ℕ → ℕ → Option ProfileThreadContext
unfolding update_data
update c count tag t =
    let d = get_or c.profile_data count unused in
    if leb profile_max count
    then some c
    else if not d.flag && leb name_size (length tag)
    then none
    else if ltb llong_max (d.total_time + t)
    then none
    else some (record c { profile_data = set c.profile_data count (update_data d tag t) })

-- One round of the loop of `End`, and whether it found the tag.
unfoldable pub end_step :
    ProfileThreadContext → ℕ → List ℕ → ℕ → Option (Bool × ProfileThreadContext)
unfolding update
end_step c i tag t =
    if leb profile_max i
    then none
    else if strcmp_equal (get_or c.profile_data i unused).name tag
    then elim (update c i tag t) [ none ↦ none | some c' ↦ some (true, c') ]
    else some (false, c)

-- The loop of `End` from this index on, over this many elements.
unfoldable pub end_loop :
    ℕ → ProfileThreadContext → ℕ → List ℕ → ℕ → Option (Bool × ProfileThreadContext)
unfolding end_step
end_loop zero c i tag t = some (false, c)
end_loop (suc n) c i tag t = elim (end_step c i tag t) [
  | none ↦ none
  | some (hit, c') ↦ elim (end_loop n c' (suc i) tag t) [
    | none ↦ none
    | some (is_find, c'') ↦ some (hit || is_find, c'')
  ]
]

-- `End`, with the time that has passed.
unfoldable pub end_tag : ProfileThreadContext → List ℕ → ℕ → Option ProfileThreadContext
unfolding end_loop
end_tag c tag t = elim (end_loop c.profile_count c 0 tag t) [
  | none ↦ none
  | some (is_find, c') ↦ if is_find then some c' else elim (update c' c'.profile_count tag t) [
    | none ↦ none
    | some c'' ↦ some (record c'' { profile_count = c''.profile_count + 1 })
  ]
]

-- The constructor and the destructor, with the times that the clock shows.
unfoldable pub construct :
    List ℕ → Option ProfileThreadContext → List ℕ → ℕ → Profiler × ProfileThreadContext
unfolding check_init
construct thread_id c tag now = (record { start_time = now; tag = tag }, check_init thread_id c)

unfoldable pub destroy : Profiler → ProfileThreadContext → ℕ → Option ProfileThreadContext
unfolding end_tag
destroy p c now = end_tag c p.tag (now - p.start_time)

-- `GetAvgUs`, in microseconds, as a fraction: the source divides in floating point, and a nanosecond
-- is a microsecond over 1000 there.
unfoldable pub get_avg : ProfileData → ℕ × ℕ
get_avg d =
    if leb d.call 4
    then (if d.call == 0 then (0, 1) else (d.total_time, 1000 * d.call))
    else (d.total_time - (d.min0 + d.min1 + d.max0 + d.max1), 1000 * (d.call - 4))

-- a line of the report, with times as fractions of microseconds
pub record Row : Type 0 where
  pub thread_id : List ℕ
  pub name : List ℕ
  pub average : ℕ × ℕ
  pub least : ℕ × ℕ
  pub greatest : ℕ × ℕ
  pub calls : ℕ

unfoldable pub write_rows : ℕ → ℕ → ProfileThreadContext → List Row
unfolding get_avg
write_rows zero i c = []
write_rows (suc n) i c =
    let d = get_or c.profile_data i unused in
    record {
      thread_id = c.thread_id;
      name = d.name;
      average = get_avg d;
      least = (d.min0, 1000);
      greatest = (d.max0, 1000);
      calls = d.call;
    }
    ∷ write_rows n (suc i) c

-- `WriteProfileData`, but for the heading and the rule below.
unfoldable pub write_profile_data : ProfileThreadContext → Option (List Row)
unfolding write_rows
write_profile_data c =
    if ltb profile_max c.profile_count then none else some (write_rows c.profile_count 0 c)
