-- ===== src/Libc/Print.antt =====
-- `vsnprintf` of libc/stdio/sprintf.c. The buffer is the memory from its start on, with what follows it.
pub mod Output
use bobliu_os.Base.{
  ℕ, zero, suc, ◌+◌, ◌-◌, ◌*◌, ◌/◌, ◌%◌, ◌^◌, List, [], ◌∷◌, ◌++◌, Bool, true, false, if◌then◌else◌,
  ltb, leb, ◌==◌, Option, none, some, set, length,
}
use bobliu_os.Word.{u32, sub32}

-- The memory, and the place `p` relative to the buffer's start.
pub record Out : Type 0 where
  pub buf : List ℕ
  pub p : ℕ

-- A variable argument: a string, null or not, or a machine word.
pub data Arg : Type 0 where
  string : Option (List ℕ) → Arg
  word : ℕ → Arg

-- The places relative to the buffer's start; `end` is one of them.
unfoldable pub buf_put : ℕ → ℕ → Out → Out
buf_put end c o = record { buf = if ltb o.p end then set o.buf o.p c else o.buf; p = o.p + 1 }

unfoldable pub buf_puts : ℕ → List ℕ → Out → Out
buf_puts end [] o = o
buf_puts end (c ∷ s) o = buf_puts end s (buf_put end c o)

abbrev pub null_text : List ℕ
null_text = b'(' ∷ b'n' ∷ b'u' ∷ b'l' ∷ b'l' ∷ b')' ∷ []

abbrev pub string_text : Option (List ℕ) → List ℕ
string_text none = null_text
string_text (some s) = s

abbrev pub digit : ℕ → ℕ
digit d = if ltb d 10 then b'0' + d else b'a' + d - 10

-- The loop of `buf_put_uint`: `tmp` with its last digit first, as far as `room` goes.
unfoldable pub digits : ℕ → ℕ → ℕ → List ℕ → List ℕ
digits zero base v tmp = tmp
digits (suc room) base v tmp =
    let more = digits room base (v / base) (digit (v % base) ∷ tmp) in if v == 0 then tmp else more

-- The characters that `buf_put_uint` puts.
unfoldable pub uint_text : ℕ → ℕ → List ℕ
uint_text base v = if v == 0 then b'0' ∷ [] else digits 16 base v []

-- The characters that `buf_put_int` puts, of the word that holds the number.
unfoldable pub int_text : ℕ → List ℕ
int_text v = if leb (2 ^ 31) v then b'-' ∷ uint_text 10 (sub32 0 v) else uint_text 10 v

abbrev pub take_string : List Arg → Option (List ℕ × List Arg)
take_string [] = none
take_string (word v ∷ args) = none
take_string (string s ∷ args) = some (string_text s, args)

abbrev pub take_word : (ℕ → List ℕ) → List Arg → Option (List ℕ × List Arg)
take_word k [] = none
take_word k (string s ∷ args) = none
take_word k (word v ∷ args) = some (k v, args)

-- The characters that a conversion puts, and the arguments that it leaves; none where C leaves the
-- call undefined.
unfoldable pub convert : ℕ → List Arg → Option (List ℕ × List Arg)
convert c args =
    if c == b'%'
    then some (b'%' ∷ [], args)
    else if c == b's'
    then take_string args
    else if c == b'c'
    then take_word (λ v. v % 256 ∷ []) args
    else if c == b'd'
    then take_word int_text args
    else if c == b'u'
    then take_word (uint_text 10) args
    else if c == b'x'
    then take_word (uint_text 16) args
    else some (b'%' ∷ c ∷ [], args)

-- The loop over the format. A `%` at its end is undefined: the loop goes on behind the terminator.
unfoldable pub format_loop : ℕ → List ℕ → List Arg → Out → Option Out
format_loop end [] args o = some o
format_loop end (c ∷ []) args o = if c == b'%' then none else some (buf_put end c o)
format_loop end (c ∷ d ∷ fmt) args o =
    let plain = format_loop end (d ∷ fmt) args (buf_put end c o) in
    let converted : List ℕ × List Arg → Option Out =
      λ t. format_loop end fmt t.1 (buf_puts end t.0 o) in
    if c == b'%' then elim (convert d args) [ none ↦ none | some t ↦ converted t ] else plain

-- The terminator: in the buffer when the text fits, and behind it when it does not.
unfoldable pub terminate : ℕ → Out → Out
terminate size o =
    let end = size - 1 in
    if size == 0 then o else record o { buf = set o.buf (if leb o.p end then o.p else end + 1) 0 }

abbrev pub finish : ℕ → Option Out → Option Out
finish size none = none
finish size (some o) = some (terminate size o)

-- Of a buffer of `size` bytes; `size` is less than 2^32 - 1 and `buf + size` does not wrap.
unfoldable pub vsnprintf : List ℕ → ℕ → List ℕ → List Arg → Option Out
vsnprintf buf size fmt args =
    finish size (format_loop (size - 1) fmt args (record { buf = buf; p = 0 }))
