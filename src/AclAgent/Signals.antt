-- ===== src/AclAgent/Signals.antt =====
-- arataga/acl_handler/a_handler.cpp: how many signals of each kind wait for the agent, and the order
-- that matters.
use arataga.Prelude.{ℕ, ◌+◌, ◌≤◌, ◌≡◌, refl, List, [], ◌∷◌, ◌++◌, arith, ltb, if◌then◌else◌, length}
use arataga.Prelude.Eq.{nat_eq}
use arataga.Prelude.Map.{emplace, erase, update}
use arataga.AclAgent.{
  AclMessage, try_create_entry_point, accept_next, current_accept_completed,
  enable_accepting_connections, shutdown, updated_common_acl_params, resolve_reply, auth_reply,
}

-- A choice for each kind of message.
abbrev pub is_try : AclMessage → ℕ
is_try try_create_entry_point = 1
is_try _ = 0

abbrev pub is_next : AclMessage → ℕ
is_next accept_next = 1
is_next _ = 0

abbrev pub is_completed : AclMessage → ℕ
is_completed current_accept_completed = 1
is_completed _ = 0

abbrev pub is_enable : AclMessage → ℕ
is_enable enable_accepting_connections = 1
is_enable _ = 0

unfoldable pub count : (AclMessage → ℕ) → List AclMessage → ℕ
count f [] = 0
count f (m ∷ q) = f m + count f q

-- Signals to resume that wait behind one to accept.
unfoldable pub behind : List AclMessage → ℕ
unfolding count
behind [] = 0
behind (accept_next ∷ q) = count is_enable q
behind (try_create_entry_point ∷ q) = behind q
behind (current_accept_completed ∷ q) = behind q
behind (enable_accepting_connections ∷ q) = behind q
behind (shutdown ∷ q) = behind q
behind (updated_common_acl_params p ∷ q) = behind q
behind (resolve_reply i t ∷ q) = behind q
behind (auth_reply i t ∷ q) = behind q

-- The largest limit among the new configs that wait.
unfoldable pub peak : List AclMessage → ℕ
peak [] = 0
peak (updated_common_acl_params p ∷ q) =
    let rest = peak q in if ltb rest p.maxconn then p.maxconn else rest
peak (accept_next ∷ q) = peak q
peak (try_create_entry_point ∷ q) = peak q
peak (current_accept_completed ∷ q) = peak q
peak (enable_accepting_connections ∷ q) = peak q
peak (shutdown ∷ q) = peak q
peak (resolve_reply i t ∷ q) = peak q
peak (auth_reply i t ∷ q) = peak q

pub count-append :
    (f : AclMessage → ℕ) (q : List AclMessage) (m : AclMessage)
    → count f (q ++ (m ∷ [])) ≡ count f q + f m
unfolding count
count-append f [] m = omega arith
count-append f (n ∷ q) m = ground (arith, count-append f q m)

-- A sent message that is not a signal to resume is behind nothing.
pub behind-append :
    (q : List AclMessage) (m : AclMessage) → is_enable m ≡ 0 → behind (q ++ (m ∷ [])) ≡ behind q
unfolding behind count
behind-append [] try_create_entry_point h = refl
behind-append [] accept_next h = refl
behind-append [] current_accept_completed h = refl
behind-append [] enable_accepting_connections h = refl
behind-append [] shutdown h = refl
behind-append [] (updated_common_acl_params p) h = refl
behind-append [] (resolve_reply i t) h = refl
behind-append [] (auth_reply i t) h = refl
behind-append (accept_next ∷ q) m h = ground (arith, count-append is_enable q m)
behind-append (try_create_entry_point ∷ q) m h = behind-append q m h
behind-append (current_accept_completed ∷ q) m h = behind-append q m h
behind-append (enable_accepting_connections ∷ q) m h = behind-append q m h
behind-append (shutdown ∷ q) m h = behind-append q m h
behind-append (updated_common_acl_params p ∷ q) m h = behind-append q m h
behind-append (resolve_reply i t ∷ q) m h = behind-append q m h
behind-append (auth_reply i t ∷ q) m h = behind-append q m h

-- With nothing to accept in the queue, nothing is behind it.
pub behind-append_enable :
    (q : List AclMessage)
    → count is_next q ≡ 0
    → behind (q ++ (enable_accepting_connections ∷ [])) ≡ 0
unfolding behind count
behind-append_enable [] h = refl
behind-append_enable (accept_next ∷ q) h = ground arith
behind-append_enable (try_create_entry_point ∷ q) h = behind-append_enable q (omega arith)
behind-append_enable (current_accept_completed ∷ q) h = behind-append_enable q (omega arith)
behind-append_enable (enable_accepting_connections ∷ q) h = behind-append_enable q (omega arith)
behind-append_enable (shutdown ∷ q) h = behind-append_enable q (omega arith)
behind-append_enable (updated_common_acl_params p ∷ q) h = behind-append_enable q (omega arith)
behind-append_enable (resolve_reply i t ∷ q) h = behind-append_enable q (omega arith)
behind-append_enable (auth_reply i t ∷ q) h = behind-append_enable q (omega arith)

-- A limit that holds for the queue and for a message holds with it.
pub peak-append :
    (b : ℕ) (q : List AclMessage) (m : AclMessage)
    → peak q ≤ b
    → peak (m ∷ []) ≤ b
    → peak (q ++ (m ∷ [])) ≤ b
unfolding peak
peak-append b [] m h k = k
peak-append b (accept_next ∷ q) m h k = peak-append b q m h k
peak-append b (try_create_entry_point ∷ q) m h k = peak-append b q m h k
peak-append b (current_accept_completed ∷ q) m h k = peak-append b q m h k
peak-append b (enable_accepting_connections ∷ q) m h k = peak-append b q m h k
peak-append b (shutdown ∷ q) m h k = peak-append b q m h k
peak-append b (updated_common_acl_params p ∷ q) m h k = ground (arith, peak-append b q m)
peak-append b (resolve_reply i t ∷ q) m h k = peak-append b q m h k
peak-append b (auth_reply i t ∷ q) m h k = peak-append b q m h k

pub length-erase : (id : ℕ) (m : List (ℕ × ℕ)) → length (erase id m) ≤ length m
unfolding erase
length-erase id [] = omega arith
length-erase id ((j, h) ∷ m) = ground (arith, length-erase id m)

pub length-emplace : (id h : ℕ) (m : List (ℕ × ℕ)) → length (emplace id h m) ≤ length m + 1
unfolding emplace
length-emplace id h [] = omega arith
length-emplace id h ((j, g) ∷ m) = ground (arith, length-emplace id h m)

pub length-update : (id : ℕ) (f : ℕ → ℕ) (m : List (ℕ × ℕ)) → length (update id f m) ≡ length m
unfolding update
length-update id f [] = refl
length-update id f ((j, g) ∷ m) = ground (arith, length-update id f m)

-- No signal to resume is behind anything when there is none.
pub behind_none : (q : List AclMessage) → count is_enable q ≡ 0 → behind q ≡ 0
unfolding behind count
behind_none [] h = refl
behind_none (accept_next ∷ q) h = omega arith
behind_none (try_create_entry_point ∷ q) h = behind_none q (omega arith)
behind_none (current_accept_completed ∷ q) h = behind_none q (omega arith)
behind_none (enable_accepting_connections ∷ q) h = omega arith
behind_none (shutdown ∷ q) h = behind_none q (omega arith)
behind_none (updated_common_acl_params p ∷ q) h = behind_none q (omega arith)
behind_none (resolve_reply i t ∷ q) h = behind_none q (omega arith)
behind_none (auth_reply i t ∷ q) h = behind_none q (omega arith)

-- The counts when a message has been sent.
pub counts-append :
    (q : List AclMessage) (m : AclMessage)
    → (count is_try (q ++ (m ∷ [])) ≡ count is_try q + is_try m)
      × (count is_next (q ++ (m ∷ [])) ≡ count is_next q + is_next m)
      × (count is_completed (q ++ (m ∷ [])) ≡ count is_completed q + is_completed m)
      × (count is_enable (q ++ (m ∷ [])) ≡ count is_enable q + is_enable m)
counts-append q m = (
  count-append is_try q m,
  count-append is_next q m,
  count-append is_completed q m,
  count-append is_enable q m,
)
