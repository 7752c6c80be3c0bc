-- ===== src/Runtime/Opening/History.antt =====
-- What a chat remembers: the history of a run goes into the next one, and from there out again.
use helios_os.Prelude.{
  String, str_eq, eq_iff, true, false, ◌&&◌, ◌≡◌, refl, ap, ◌∙◌, Option, some, List, [], ◌∷◌, ◌++◌,
  arith, Bool-cases, Option-cases, inl, inr, if◌then◌else◌, All,
}
use helios_os.Kernel.Json.{Value, Fields, dict, list, str, num, bool, null, field_of, has_key}
use helios_os.Kernel.Permission.{is_space}
use helios_os.Runtime.Shaping.{Texts}
use helios_os.Runtime.Goal.{lstrip, rstrip}
use helios_os.Runtime.Opening.{
  strip, block_parts, join_lines, text_of, is_chat_role, chat_turn, turn_of, extract_chat_history,
  system_text, system_messages, history_messages, user_text, shape_initial,
}

rstrip-rstrip : (s : String) → rstrip (rstrip s) ≡ rstrip s
unfolding rstrip
rstrip-rstrip String.[] = refl
rstrip-rstrip (String.◌∷◌ c s) = elim (Bool-cases (str_eq (rstrip s) "" && is_space c)) [
  | inl e ↦ rw e refl
  | inr e ↦ rw e (rw (rstrip-rstrip s) (rw e refl))
]

lstrip-lstrip : (s : String) → lstrip (lstrip s) ≡ lstrip s
unfolding lstrip
lstrip-lstrip String.[] = refl
lstrip-lstrip (String.◌∷◌ c s) = ground (arith, lstrip-lstrip s)

rstrip-lstrip : (s : String) → rstrip (lstrip s) ≡ lstrip (rstrip s)
unfolding lstrip rstrip
rstrip-lstrip String.[] = refl
rstrip-lstrip (String.◌∷◌ c s) = ground (arith, rstrip-lstrip s, eq_iff (rstrip s) "")

strip-strip : (s : String) → strip (strip s) ≡ strip s
unfolding strip
strip-strip s =
    ap lstrip (rstrip-lstrip (rstrip s))
    ∙ lstrip-lstrip (rstrip (rstrip s))
    ∙ ap lstrip (rstrip-rstrip s)

-- The history is read message by message.
extract-append :
    (xs ys : List Value) (h k : List Fields)
    → extract_chat_history xs ≡ some h
    → extract_chat_history ys ≡ some k
    → extract_chat_history (xs ++ ys) ≡ some (h ++ k)
unfolding extract_chat_history
extract-append [] ys h k e f = ground arith
extract-append (dict fs ∷ xs) ys h k e f = elim (Option-cases (extract_chat_history xs)) [
  | inl g ↦ absurd (ground arith)
  | inr (out, g) ↦ ground (arith, extract-append xs ys out k g f)
]
extract-append (list vs ∷ xs) ys h k e f = absurd (ground arith)
extract-append (str s ∷ xs) ys h k e f = absurd (ground arith)
extract-append (num n ∷ xs) ys h k e f = absurd (ground arith)
extract-append (bool b ∷ xs) ys h k e f = absurd (ground arith)
extract-append (null ∷ xs) ys h k e f = absurd (ground arith)

-- A turn of a history: a text of the user or the assistant, without spaces around it.
record IsChat (m : Fields) : Type 0 where
  role : Value
  text : String
  is_turn : m ≡ chat_turn role (str text)
  of_chat : is_chat_role role ≡ true
  stripped : strip text ≡ text
  named : str_eq text "" ≡ false

text_of-strip : (v : Value) → strip (text_of v) ≡ text_of v
unfolding text_of strip lstrip rstrip
text_of-strip (str s) = strip-strip s
text_of-strip (list blocks) = strip-strip (join_lines (block_parts blocks))
text_of-strip (dict fs) = refl
text_of-strip (num n) = refl
text_of-strip (bool b) = refl
text_of-strip null = refl

turn_of-IsChat : (m : Fields) → All IsChat (turn_of m)
unfolding turn_of
turn_of-IsChat m = elim (Bool-cases (is_chat_role (field_of "role" m))) [
  | inr e ↦ rw e tt
  | inl e ↦ elim (Bool-cases (str_eq (text_of (field_of "content" m)) "")) [
    | inl n ↦ rw (e, n) tt
    | inr n ↦
        rw (e, n)
          (
            record {
              role = field_of "role" m;
              text = text_of (field_of "content" m);
              is_turn = refl;
              of_chat = e;
              stripped = text_of-strip (field_of "content" m);
              named = n;
            },
            tt,
          )
  ]
]

All-IsChat_append : (xs ys : List Fields) → All IsChat xs → All IsChat ys → All IsChat (xs ++ ys)
All-IsChat_append [] ys h k = k
All-IsChat_append (x ∷ xs) ys (a, h) k = (a, All-IsChat_append xs ys h k)

extract-IsChat :
    (ms : List Value) (h : List Fields) → extract_chat_history ms ≡ some h → All IsChat h
unfolding extract_chat_history
extract-IsChat [] h e = let p : h ≡ [] = ground arith in rw p tt
extract-IsChat (dict fs ∷ ms) h e = elim (Option-cases (extract_chat_history ms)) [
  | inl g ↦ absurd (ground arith)
  | inr (out, g) ↦
      let p : h ≡ turn_of fs ++ out = ground (arith) in
      rw p (All-IsChat_append (turn_of fs) out (turn_of-IsChat fs) (extract-IsChat ms out g))
]
extract-IsChat (list vs ∷ ms) h e = absurd (ground arith)
extract-IsChat (str s ∷ ms) h e = absurd (ground arith)
extract-IsChat (num n ∷ ms) h e = absurd (ground arith)
extract-IsChat (bool b ∷ ms) h e = absurd (ground arith)
extract-IsChat (null ∷ ms) h e = absurd (ground arith)

-- A turn of a history is read back as itself.
turn_of_self :
    (role : Value) (text : String)
    → is_chat_role role ≡ true
    → strip text ≡ text
    → str_eq text "" ≡ false
    → turn_of (chat_turn role (str text)) ≡ chat_turn role (str text) ∷ []
unfolding turn_of field_of text_of
turn_of_self role text r s n = rw (s, r, n) refl

chat_message :
    (role : Value) (text : String) (ms : List Fields)
    → history_messages (chat_turn role (str text) ∷ ms)
      ≡ dict (chat_turn role (str text)) ∷ history_messages ms
unfolding history_messages has_key field_of
chat_message role text ms = refl

chat-extract :
    (m : Fields) (hs : List Fields)
    → IsChat m
    → extract_chat_history (history_messages hs) ≡ some hs
    → extract_chat_history (history_messages (m ∷ hs)) ≡ some (m ∷ hs)
unfolding extract_chat_history
chat-extract m hs a e = rw a.is_turn (
    rw (chat_message a.role a.text hs) (
      rw (e, extract_chat_history)
        (rw (turn_of_self a.role a.text a.of_chat a.stripped a.named) refl)))

history-extract :
    (hs : List Fields) → All IsChat hs → extract_chat_history (history_messages hs) ≡ some hs
unfolding extract_chat_history history_messages
history-extract [] k = refl
history-extract (m ∷ hs) (a, k) = chat-extract m hs a (history-extract hs k)

-- The opening of a run leaves no system message in the history.
system-extract : (text : String) → extract_chat_history (system_messages text) ≡ some []
unfolding extract_chat_history system_messages turn_of field_of is_chat_role
system-extract text = elim (Bool-cases (str_eq text "")) [ inl e ↦ rw e refl | inr e ↦ rw e refl ]

-- What a prompt leaves in the history: its text without the spaces around it, if any is left.
abbrev pub prompt_turn : String → List Fields
prompt_turn prompt =
    if str_eq (strip prompt) "" then [] else chat_turn (str "user") (str (strip prompt)) ∷ []

prompt-extract :
    (prompt : String)
    → extract_chat_history (dict (chat_turn (str "user") (str prompt)) ∷ [])
      ≡ some (prompt_turn prompt)
unfolding extract_chat_history turn_of field_of is_chat_role text_of
prompt-extract prompt = elim (Bool-cases (str_eq (strip prompt) "")) [
  | inl e ↦ rw e refl
  | inr e ↦ rw e refl
]

-- A chat remembers: the history that a run is opened with, which was extracted from the run before,
-- is extracted from its messages again unchanged, and the turn of the new prompt follows. The
-- messages with the system prompt and the goal leave nothing.
pub opened_run_remembers :
    (texts : Texts) (ms : List Value) (h : List Fields) (system prompt : String)
    (context : Option Value) (goal : Option String)
    → extract_chat_history ms ≡ some h
    → extract_chat_history (shape_initial texts system h prompt context goal)
      ≡ some (h ++ prompt_turn (user_text texts prompt context))
unfolding shape_initial
opened_run_remembers texts ms h system prompt context goal e =
    extract-append (system_messages (system_text system goal) ++ history_messages h) _ h
      (prompt_turn (user_text texts prompt context))
      (extract-append (system_messages (system_text system goal)) (history_messages h) [] h
        (system-extract (system_text system goal)) (history-extract h (extract-IsChat ms h e)))
      (prompt-extract (user_text texts prompt context))
