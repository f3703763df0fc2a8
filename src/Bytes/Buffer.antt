-- ===== src/Bytes/Buffer.antt =====
-- The operations of src/bytes.rs on a whole buffer: construction, indexing, growth and copies.
use mux_runtime.Common.{
  ℕ, suc, Option, ◌+◌, if◌then◌else◌, ◌-◌, Bool, true, false, ltb, leb, ◌==◌, min, none, some, List,
  [], ◌∷◌, ◌++◌, map, length, get_elem?, take, drop, replicate, Result, ok, err, ◌>>=◌,
}
use mux_runtime.Common.Int.{ℤ, pos, negsuc, pos_part, clamp_ℤ, leb_ℤ, eqb_ℤ, i64_max}
use mathlib.Core.Option
use mux_runtime.Bytes.Value.{
  Value, int, bytes, BytesError, not_octets, byte_range, byte_value, bytes_ref, bytes_mut,
  wrap_index, float, other,
}

-- `Vec::insert` at an index up to the length
abbrev pub insert_at : ℕ → ℕ → List ℕ → List ℕ
insert_at i b bs = take i bs ++ b ∷ drop i bs

-- `Vec::remove` at an index below the length
abbrev pub remove_at : ℕ → List ℕ → List ℕ
remove_at i bs = take i bs ++ drop (suc i) bs

unfoldable pub new : Value
new = bytes []

-- `from_data` at the octets that the pointer leads to; `none` is the null pointer
unfoldable pub from_data : Option (List ℕ) → ℤ → Value
from_data none n = bytes []
from_data (some data_) n = if leb_ℤ n (pos 0) then bytes [] else bytes (take (pos_part n) data_)

-- the loop of `from_list`
unfoldable pub from_values : List Value → Result BytesError (List ℕ)
from_values [] = ok []
from_values (int (pos n) ∷ vs) =
    let rest = from_values vs in if leb n 255 then (do bs ← rest; ok (n ∷ bs)) else err byte_range
from_values (int (negsuc n) ∷ vs) = err byte_range
from_values (float b ∷ vs) = err byte_range
from_values (bytes bs ∷ vs) = err byte_range
from_values (other ∷ vs) = err byte_range

-- `none` where the argument is null or not a list
unfoldable pub from_list : Option (List Value) → Result BytesError Value
unfolding from_values
from_list none = err not_octets
from_list (some vs) = do bs ← from_values vs; ok (bytes bs)

unfoldable pub to_list : Option Value → List Value
unfolding bytes_ref
to_list v = elim (bytes_ref v) [ none ↦ [] | some bs ↦ map (λ b. int (pos b)) bs ]

unfoldable pub bytes_length : Option Value → ℤ
unfolding bytes_ref
bytes_length v = elim (bytes_ref v) [ none ↦ pos 0 | some bs ↦ pos (length bs) ]

abbrev pub is_nil : List ℕ → Bool
is_nil [] = true
is_nil (b ∷ bs) = false

unfoldable pub bytes_is_empty : Option Value → Bool
unfolding bytes_ref
bytes_is_empty v = elim (bytes_ref v) [ none ↦ true | some bs ↦ is_nil bs ]

-- `bytes.get(normalized as usize)` under its guard
unfoldable pub get_normalized : List ℕ → ℤ → Option ℕ
get_normalized bs (pos n) = if ltb n (length bs) then get_elem? bs n else none
get_normalized bs (negsuc n) = none

unfoldable pub bytes_get : Option Value → ℤ → Option ℕ
unfolding bytes_ref get_normalized wrap_index
bytes_get v index = elim (bytes_ref v) [
  | none ↦ none
  | some bs ↦ get_normalized bs (wrap_index (length bs) index)
]

-- `let Ok(byte) = byte_value(byte) else { return }`
unfoldable pub with_byte :
    Result BytesError ℕ → (ℕ → Option Value → Option Value) → Option Value → Option Value
with_byte (err e) f v = v
with_byte (ok b) f v = f b v

unfoldable pub push_back : Option Value → Option Value → Option Value
unfolding with_byte byte_value bytes_mut
push_back v byte = with_byte (byte_value byte) (λ b. bytes_mut (λ bs. bs ++ b ∷ [])) v

unfoldable pub push_front : Option Value → Option Value → Option Value
unfolding with_byte byte_value bytes_mut
push_front v byte = with_byte (byte_value byte) (λ b. bytes_mut (λ bs. insert_at 0 b bs)) v

-- `Vec::pop`
unfoldable pub pop_last : List ℕ → Option ℕ × List ℕ
pop_last bs = (get_elem? bs (length bs - 1), take (length bs - 1) bs)

unfoldable pub pop_back : Option Value → Option ℕ × Option Value
unfolding bytes_ref bytes_mut pop_last
pop_back v = (
  elim (bytes_ref v) [ none ↦ none | some bs ↦ (pop_last bs).0 ],
  bytes_mut (λ bs. (pop_last bs).1) v,
)

unfoldable pub pop_first : List ℕ → Option ℕ × List ℕ
pop_first [] = (none, [])
pop_first (b ∷ bs) = (some b, bs)

unfoldable pub pop_front : Option Value → Option ℕ × Option Value
unfolding bytes_ref bytes_mut pop_first
pop_front v = (
  elim (bytes_ref v) [ none ↦ none | some bs ↦ (pop_first bs).0 ],
  bytes_mut (λ bs. (pop_first bs).1) v,
)

unfoldable pub bytes_clear : Option Value → Option Value
unfolding bytes_mut
bytes_clear = bytes_mut (λ bs. [])

-- `bytes.truncate(length.max(0) as usize)`
unfoldable pub truncate : Option Value → ℤ → Option Value
unfolding bytes_mut
truncate v n = bytes_mut (take (pos_part n)) v

-- `Vec::resize`
abbrev pub resize_vec : ℕ → ℕ → List ℕ → List ℕ
resize_vec n fill bs = take n bs ++ replicate (n - length bs) fill

-- `can_reserve` says whether the allocator has the further bytes.
unfoldable pub resize : (ℕ → Bool) → Option Value → ℤ → Option Value → Option Value
unfolding with_byte byte_value bytes_mut
resize can_reserve v (negsuc n) fill = v
resize can_reserve v (pos n) fill =
    with_byte (byte_value fill)
      (λ b. bytes_mut (λ bs.
        if leb n (length bs)
        then resize_vec n b bs
        else if can_reserve (n - length bs)
        then resize_vec n b bs
        else bs))
      v

unfoldable pub fill : Option Value → Option Value → Option Value
unfolding with_byte byte_value bytes_mut
fill v byte = with_byte (byte_value byte) (λ b. bytes_mut (map (λ x. b))) v

unfoldable pub extend : Option Value → Option Value → Option Value
unfolding bytes_ref bytes_mut
extend v w = elim (bytes_ref w) [ none ↦ v | some cs ↦ bytes_mut (λ bs. bs ++ cs) v ]

-- an index that is wrapped once and clamped to `0 ..= len`
unfoldable pub clamp_index : ℕ → ℤ → ℕ
unfolding wrap_index
clamp_index len index = pos_part (clamp_ℤ (wrap_index len index) (pos 0) (pos len))

unfoldable pub insert : Option Value → ℤ → Option Value → Option Value
unfolding with_byte byte_value bytes_mut clamp_index
insert v index byte =
    with_byte (byte_value byte)
      (λ b. bytes_mut (λ bs. insert_at (clamp_index (length bs) index) b bs)) v

-- `(index >= 0 && index < len).then(|| bytes.remove(index as usize))`
unfoldable pub remove_normalized : List ℕ → ℤ → Option ℕ × List ℕ
remove_normalized bs (pos n) =
    if ltb n (length bs) then (get_elem? bs n, remove_at n bs) else (none, bs)
remove_normalized bs (negsuc n) = (none, bs)

unfoldable pub remove : Option Value → ℤ → Option ℕ × Option Value
unfolding bytes_ref bytes_mut remove_normalized wrap_index
remove v index = (
  elim (bytes_ref v) [
    | none ↦ none
    | some bs ↦ (remove_normalized bs (wrap_index (length bs) index)).0
  ],
  bytes_mut (λ bs. (remove_normalized bs (wrap_index (length bs) index)).1) v,
)

-- `slice::copy_within`: the source is read before it is written over.
abbrev pub move_within : ℕ → ℕ → ℕ → List ℕ → List ℕ
move_within source count destination bs =
    take destination bs ++ (take count (drop source bs) ++ drop (destination + count) bs)

unfoldable pub copy_count : ℕ → ℕ → ℕ → ℤ → ℕ
copy_count len source destination n = min (min (pos_part n) (len - source)) (len - destination)

unfoldable pub copy_within : Option Value → ℤ → ℤ → ℤ → Option Value
unfolding bytes_mut clamp_index copy_count
copy_within v destination source n =
    bytes_mut
      (λ bs.
        let s = clamp_index (length bs) source in
        let d = clamp_index (length bs) destination in
        let count = copy_count (length bs) s d n in
        if leb_ℤ n (pos 0) then bs else if count == 0 then bs else move_within s count d bs)
      v

-- the closure `normalize`: the greatest integer stands for an index that was left out
unfoldable pub normalize : ℕ → ℤ → ℤ → ℕ
unfolding clamp_index
normalize len index default = clamp_index len (if eqb_ℤ index i64_max then default else index)

-- `bytes[start..end].to_vec()`
abbrev pub sub_list : ℕ → ℕ → List ℕ → List ℕ
sub_list start end bs = take (end - start) (drop start bs)

unfoldable pub slice_bytes : List ℕ → ℤ → ℤ → List ℕ
unfolding normalize
slice_bytes bs start end =
    let s = normalize (length bs) start (pos 0) in
    let e = normalize (length bs) end (pos (length bs)) in if leb s e then sub_list s e bs else []

unfoldable pub slice : Option Value → ℤ → ℤ → Value
unfolding bytes_ref slice_bytes
slice v start end = elim (bytes_ref v) [
  | none ↦ bytes []
  | some bs ↦ bytes (slice_bytes bs start end)
]

unfoldable pub contains_byte : ℕ → List ℕ → Bool
contains_byte b [] = false
contains_byte b (c ∷ cs) = if c == b then true else contains_byte b cs

unfoldable pub contains : Option Value → Option Value → Bool
unfolding bytes_ref byte_value contains_byte
contains v byte = elim (byte_value byte) [
  | err e ↦ false
  | ok b ↦ elim (bytes_ref v) [ none ↦ false | some bs ↦ contains_byte b bs ]
]

-- `bytes.iter().position(|item| *item == byte)`
unfoldable pub position_of : ℕ → List ℕ → Option ℕ
position_of b [] = none
position_of b (c ∷ cs) = if c == b then some 0 else Option.map suc (position_of b cs)

unfoldable pub find : Option Value → Option Value → Option ℕ
unfolding bytes_ref byte_value position_of
find v byte = elim (byte_value byte) [
  | err e ↦ none
  | ok b ↦ elim (bytes_ref v) [ none ↦ none | some bs ↦ position_of b bs ]
]
