-- ===== src/Fwdapi/LogBuffer.antt =====
-- pkg/fwdapi/logbuffer.go: the last entries of the log, and the hook that fills it.
use kubefwd.Base.{
  ℕ, ◌<◌, ◌≡◌, refl, ap, ◌∙◌, List, [], ◌∷◌, reverse, Option, none, some, ◌||◌, Text, Dict, insert,
  text_key, ℤ, pos, negsuc, ltb, min, take, arith, if◌then◌else◌, nat_beq,
}
use kubefwd.Ring.{Ring, fresh, put, newest, contents, bounded_size}
use kubefwd.Ring.Contents.{put_all, put_all-fresh, take-contents, newest-none}

-- `types.LogBufferEntry`
pub record LogBufferEntry : Type 0 where
  pub timestamp : ℕ
  pub level : Text
  pub message : Text
  pub fields : Dict Text Text

abbrev pub no_entry : LogBufferEntry
no_entry = record { timestamp = 0; level = []; message = []; fields = [] }

-- `LogBuffer`: entries, size, head and count.
abbrev pub LogBuffer : Type 0
LogBuffer = Ring LogBufferEntry

abbrev pub max_log_buffer_size : ℕ
max_log_buffer_size = 10000

-- `NewLogBuffer`
unfoldable pub new_log_buffer : ℕ → LogBuffer
new_log_buffer size = fresh no_entry size

-- `LogBuffer.Add`; `none` is the panic of an index out of range.
unfoldable pub add : LogBufferEntry → LogBuffer → Option LogBuffer
add entry b = put entry b

-- `LogBuffer.GetLast`
unfoldable pub get_last : LogBuffer → ℤ → List LogBufferEntry
get_last b (negsuc n) = []
get_last b (pos n) =
    if nat_beq n 0 || nat_beq b.count 0
    then []
    else (let n' = if ltb b.count n then b.count else n in
        let alloc_size = bounded_size (pos n') max_log_buffer_size in
        if nat_beq alloc_size 0 then [] else newest no_entry b 0 alloc_size)

-- `LogBuffer.GetAll`
unfoldable pub get_all : LogBuffer → List LogBufferEntry
unfolding get_last
get_all b = get_last b (pos b.count)

-- `LogBuffer.Clear`
unfoldable pub clear : LogBuffer → LogBuffer
clear b = record b { head = 0; count = 0 }

-- A value of a field of a logrus entry: a string, or anything else.
pub data FieldValue : Type 0 where
  string : Text → FieldValue
  other : FieldValue

-- `logrus.Entry`, as far as the hook reads it.
pub record LogrusEntry : Type 0 where
  pub time : ℕ
  pub level : Text
  pub message : Text
  pub values : List (Text × FieldValue)

-- The loop of `LogBufferHook.Fire` over the fields of the entry.
unfoldable pub string_fields : Dict Text Text → List (Text × FieldValue) → Dict Text Text
string_fields fields [] = fields
string_fields fields ((k, string s) ∷ rest) = string_fields (insert k s fields) rest
string_fields fields ((k, other) ∷ rest) = string_fields (insert k [] fields) rest

-- `LogBufferHook.Fire`
unfoldable pub fire : LogrusEntry → LogBuffer → Option LogBuffer
unfolding add string_fields
fire entry b =
    add
      (record {
        timestamp = entry.time;
        level = entry.level;
        message = entry.message;
        fields = string_fields [] entry.values;
      })
      b

-- A row of entries, the first of them first.
pub add_all : List LogBufferEntry → LogBuffer → Option LogBuffer
add_all [] b = some b
add_all (entry ∷ rest) b = elim (add entry b) [ none ↦ none | some b' ↦ add_all rest b' ]

add_all-put_all :
    (entries : List LogBufferEntry) (b : LogBuffer) → add_all entries b ≡ put_all no_entry entries b
unfolding add_all put_all add
add_all-put_all [] b = refl
add_all-put_all (entry ∷ rest) b = step (put entry b) (λ b'. add_all-put_all rest b')
  where
    step :
        (x : Option LogBuffer)
        → ((b' : LogBuffer) → add_all rest b' ≡ put_all no_entry rest b')
        → elim x as (λ y. Option LogBuffer) [ none ↦ none | some b' ↦ add_all rest b' ]
          ≡ elim x as (λ y. Option LogBuffer) [ none ↦ none | some b' ↦ put_all no_entry rest b' ]
    step none ih = refl
    step (some b') ih = ih b'

get_last-take :
    (b : LogBuffer) (n : ℕ)
    → get_last b (pos n) ≡ take (min n max_log_buffer_size) (contents no_entry b)
unfolding get_last bounded_size
get_last-take b n = ground (
  arith,
  take-contents no_entry b (min n max_log_buffer_size),
  newest-none no_entry b 0 (min (min n max_log_buffer_size) b.count),
)

-- Adding to a buffer of positive size never panics; afterwards `GetLast` returns the newest entries
-- first, as many as are asked for, within the size and the limit of an allocation.
pub get_last-add_all :
    (size : ℕ) (entries : List LogBufferEntry)
    → 0 < size
    → (b : LogBuffer) × (add_all entries (new_log_buffer size) ≡ some b)
      × ((n : ℕ)
          → get_last b (pos n) ≡ take (min n max_log_buffer_size) (take size (reverse entries)))
unfolding new_log_buffer
get_last-add_all size entries h =
    let (b, e, _, _, held) = put_all-fresh no_entry entries size h in
    (
      b,
      add_all-put_all entries (fresh no_entry size) ∙ e,
      λ n. get_last-take b n ∙ ap (take (min n max_log_buffer_size)) held,
    )
