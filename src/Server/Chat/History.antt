-- ===== src/Server/Chat/History.antt =====
-- What the chat of server/src/chat.rs remembers.
use protanki_protocol_rs.Common.{
  ℕ, ◌-◌, ◌+◌, ◌≤◌, ◌≡◌, refl, ap, sym, ◌∙◌, arith, Bool, List, [], ◌∷◌, ◌++◌, map, append-nil,
  append_assoc, length, drop, ltb, Bool-cases, inl, inr, length-append, length-drop, drop-append_le,
  zero, suc,
}
use protanki_protocol_rs.Protocol.Codec.Structs.Lobby.{ChatMessage}
use protanki_protocol_rs.Server.Chat.{ServerChat, Delivery, trim, register_chat_message}

-- Messages one after another, each with what the channels take then.
unfoldable pub register_all :
    ServerChat → List ((ℕ → Bool) × ChatMessage) → ServerChat × List Delivery
register_all chat [] = (chat, [])
register_all chat ((takes, m) ∷ ms) =
    let first = register_chat_message takes chat m in
    let rest = register_all first.0 ms in (rest.0, first.1 ++ rest.1)

-- The n last elements.
abbrev pub last : {A : Type 0} → ℕ → List A → List A
last n xs = drop (length xs - n) xs

drop_eq : {A : Type 0} (j k : ℕ) (xs : List A) → j ≡ k → drop j xs ≡ drop k xs
drop_eq j k xs e = ap (λ (i : ℕ). drop i xs) e

drop-nil : {A : Type 0} (k : ℕ) → drop {A = A} k [] ≡ []
drop-nil zero = refl
drop-nil (suc k) = refl

trim-last : (n : ℕ) (ms : List ChatMessage) → trim n ms ≡ last n ms
unfolding trim
trim-last n [] = sym (drop-nil (0 - n))
trim-last n (m ∷ ms) = elim (Bool-cases (ltb n (length (m ∷ ms)))) [
  | inl h ↦
      rw h (
        trim-last n ms
        ∙ drop_eq (suc (length ms - n)) (suc (length ms) - n) (m ∷ ms) (ground arith))
  | inr h ↦ rw h (drop_eq 0 (suc (length ms) - n) (m ∷ ms) (ground arith))
]

drop-drop : {A : Type 0} (i j : ℕ) (xs : List A) → drop i (drop j xs) ≡ drop (j + i) xs
drop-drop i zero xs = drop_eq i (0 + i) xs (omega arith)
drop-drop i (suc j) [] = drop-nil i ∙ sym (drop-nil (suc j + i))
drop-drop i (suc j) (x ∷ xs) =
    drop-drop i j xs ∙ drop_eq (suc (j + i)) (suc j + i) (x ∷ xs) (omega arith)

last-append-last :
    {A : Type 0} (n : ℕ) (xs ys : List A) → last n (last n xs ++ ys) ≡ last n (xs ++ ys)
last-append-last n xs ys =
    let k = length xs - n in
    rw (← drop-append_le k xs ys (omega arith)) (
      drop-drop (length (drop k (xs ++ ys)) - n) k (xs ++ ys)
      ∙ drop_eq (k + (length (drop k (xs ++ ys)) - n)) (length (xs ++ ys) - n) (xs ++ ys)
          (omega (arith, length-drop k (xs ++ ys), length-append xs ys)))

length-last : {A : Type 0} (n : ℕ) (xs : List A) → length (last n xs) ≤ n
length-last n xs = omega (arith, length-drop (length xs - n) xs)

-- The history is always the last messages of all, as many as the chat keeps: those of before and all
-- that were registered, in order, whatever the channels take.
pub register_all-history :
    (chat : ServerChat) (ms : List ((ℕ → Bool) × ChatMessage))
    → length chat.history ≤ chat.message_history_length
    → (register_all chat ms).0.history
      ≡ last chat.message_history_length (chat.history ++ map (λ s. s.1) ms)
unfolding register_all register_chat_message
register_all-history chat [] h =
    rw (append-nil chat.history)
      (drop_eq 0 (length chat.history - chat.message_history_length) chat.history (omega arith))
register_all-history chat ((takes, m) ∷ ms) h =
    let n = chat.message_history_length in
    let first = register_chat_message takes chat m in
    let e : first.0.history ≡ last n (chat.history ++ (m ∷ [])) = trim-last n _ in
    register_all-history first.0 ms (rw e (length-last n _))
    ∙ (rw e (last-append-last n _ _) ∙ ap (last n) (append_assoc chat.history (m ∷ []) _))
