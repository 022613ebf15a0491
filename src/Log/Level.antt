-- ===== src/Log/Level.antt =====
-- LogLevel, its texts, LogEvent::toString and the tests of the macros of log.h.
use rpc4grad.Prelude.{
  ℕ, ◌/◌, ◌≤◌, ◌≡◌, ◌≢◌, refl, arith, Bool, true, not, ◌&&◌, List, [], ◌∷◌, ◌++◌, leb, leb→le,
  le→leb, ◌==◌, sym, Bool-cases, inl, inr, ◌⊎◌, if◌then◌else◌, ◌↔◌,
}
use rpc4grad.MsgId.{str_eq, is_empty}
use rpc4grad.Connection.Callbacks.{str_eq-eq}
use rpc4grad.NetAddr.{decimal}
use rpc4grad.RunTime.{RunTime}

pub data LogLevel : Type 0 where
  unknown debug info error : LogLevel

-- The values of the enumerators.
abbrev pub level_number : LogLevel → ℕ
level_number unknown = 0
level_number debug = 1
level_number info = 2
level_number error = 3

abbrev text_debug : List ℕ
text_debug = b'D' ∷ b'E' ∷ b'B' ∷ b'U' ∷ b'G' ∷ []

abbrev text_info : List ℕ
text_info = b'I' ∷ b'N' ∷ b'F' ∷ b'O' ∷ []

abbrev text_error : List ℕ
text_error = b'E' ∷ b'R' ∷ b'R' ∷ b'O' ∷ b'R' ∷ []

abbrev text_unknown : List ℕ
text_unknown = b'U' ∷ b'N' ∷ b'K' ∷ b'N' ∷ b'O' ∷ b'W' ∷ b'N' ∷ []

unfoldable pub log_level_to_string : LogLevel → List ℕ
log_level_to_string unknown = text_unknown
log_level_to_string debug = text_debug
log_level_to_string info = text_info
log_level_to_string error = text_error

unfoldable pub string_to_log_level : List ℕ → LogLevel
string_to_log_level s =
    if str_eq s text_debug
    then debug
    else (if str_eq s text_info then info else (if str_eq s text_error then error else unknown))

-- The six macros, and the level that each gives its lines.
pub data Macro : Type 0 where
  debuglog infolog errorlog appdebuglog appinfolog apperrorlog : Macro

abbrev pub level_of : Macro → LogLevel
level_of debuglog = debug
level_of infolog = info
level_of errorlog = error
level_of appdebuglog = debug
level_of appinfolog = info
level_of apperrorlog = error

-- The test of each macro on the level of the global logger.
unfoldable pub is_logged : Macro → LogLevel → Bool
is_logged debuglog l = not (level_number l == 0) && leb (level_number l) (level_number debug)
is_logged infolog l = leb (level_number l) (level_number info)
is_logged errorlog l = leb (level_number l) (level_number error)
is_logged appdebuglog l = leb (level_number l) (level_number debug)
is_logged appinfolog l = leb (level_number l) (level_number info)
is_logged apperrorlog l = leb (level_number l) (level_number error)

abbrev bracketed : List ℕ → List ℕ
bracketed s = b'[' ∷ s ++ (b']' ∷ 9 ∷ [])

abbrev field_of : List ℕ → List ℕ
field_of s = if is_empty s then [] else bracketed s

-- LogEvent::toString. `time` is what strftime makes of the time, `usec` its microseconds; a process
-- or thread id has ten digits at most.
unfoldable pub event_to_string : LogLevel → List ℕ → ℕ → ℕ → ℕ → RunTime → List ℕ
unfolding log_level_to_string decimal
event_to_string l time usec pid tid rt =
    bracketed (log_level_to_string l)
    ++ (bracketed (time ++ (b'.' ∷ decimal 10 (usec / 1000)))
        ++ (bracketed (decimal 10 pid ++ (b':' ∷ decimal 10 tid))
            ++ (field_of rt.msg_id ++ field_of rt.method_name)))

-- The message of a macro: `place` is __FILE__ and __LINE__ with the colon, `text` what formatString
-- makes of the arguments.
unfoldable pub log_line : List ℕ → List ℕ → List ℕ → List ℕ
log_line event place text = event ++ (bracketed place ++ (text ++ (10 ∷ [])))

string_to_log_level-to_string : (l : LogLevel) → string_to_log_level (log_level_to_string l) ≡ l
unfolding string_to_log_level log_level_to_string str_eq
string_to_log_level-to_string unknown = refl
string_to_log_level-to_string debug = refl
string_to_log_level-to_string info = refl
string_to_log_level-to_string error = refl

-- A text that is none of the three known ones sets the level Unknown.
log_level_to_string-of_string :
    (s : List ℕ) → string_to_log_level s ≢ unknown → log_level_to_string (string_to_log_level s) ≡ s
unfolding string_to_log_level log_level_to_string
log_level_to_string-of_string s h = elim (Bool-cases (str_eq s text_debug)) [
  | inl a ↦ rw a (sym (str_eq-eq s text_debug a))
  | inr a ↦ elim (Bool-cases (str_eq s text_info)) [
    | inl b ↦ rw (a, b) (sym (str_eq-eq s text_info b))
    | inr b ↦ elim (Bool-cases (str_eq s text_error)) [
      | inl c ↦ rw (a, b, c) (sym (str_eq-eq s text_error c))
      | inr c ↦ absurd (h (rw (a, b, c)))
    ]
  ]
]

-- A level is read back from its text; and a text that is read as a known level is that level's text.
pub level-round_trip :
    (l : LogLevel) (s : List ℕ)
    → string_to_log_level s ≢ unknown
    → (string_to_log_level (log_level_to_string l) ≡ l)
      × (log_level_to_string (string_to_log_level s) ≡ s)
level-round_trip l s h = (string_to_log_level-to_string l, log_level_to_string-of_string s h)

-- A macro writes its line when the logger's level is at most its own; DEBUGLOG alone writes nothing
-- while the level is Unknown, where the five others write.
pub is_logged_iff :
    (m : Macro) (l : LogLevel)
    → (is_logged m l ≡ true)
      ↔ ((level_number l ≤ level_number (level_of m)) × ((m ≢ debuglog) ⊎ (l ≢ unknown)))
unfolding is_logged
is_logged_iff debuglog unknown =
    (λ h. absurd cc, λ p. elim p.1 [ inl a ↦ absurd (a refl) | inr a ↦ absurd (a refl) ])
is_logged_iff debuglog debug = (λ h. (omega arith, inr (λ e. cc)), λ p. refl)
is_logged_iff debuglog info = (λ h. absurd cc, λ p. absurd (omega (arith, p.0)))
is_logged_iff debuglog error = (λ h. absurd cc, λ p. absurd (omega (arith, p.0)))
is_logged_iff infolog l = (λ h. (leb→le _ 2 h, inl (λ e. cc)), λ p. le→leb _ 2 p.0)
is_logged_iff errorlog l = (λ h. (leb→le _ 3 h, inl (λ e. cc)), λ p. le→leb _ 3 p.0)
is_logged_iff appdebuglog l = (λ h. (leb→le _ 1 h, inl (λ e. cc)), λ p. le→leb _ 1 p.0)
is_logged_iff appinfolog l = (λ h. (leb→le _ 2 h, inl (λ e. cc)), λ p. le→leb _ 2 p.0)
is_logged_iff apperrorlog l = (λ h. (leb→le _ 3 h, inl (λ e. cc)), λ p. le→leb _ 3 p.0)
