-- ===== src/Logs/History.antt =====
-- The buffer as a window on the history of all entries.
use Prim.Native.Nat.{min}
use gear_mcp_server.Base.{
  ℕ, ◌-◌, ◌≤◌, ◌≡◌, refl, sym, ap, ◌∙◌, true, List, [], ◌∷◌, ◌++◌, arith, ◌||◌, ◌==◌, leb,
  Bool-cases, inl, inr, length, drop, last_items, length-append, length-drop, append_assoc,
  append-nil, is_empty, drop-append_le, drop-nil, drop-length, drop-drop,
}
use gear_mcp_server.Logs.{LogEntry, max_log_entries, push_log, pop_front, get_recent_logs}

-- The entries of a history, the oldest first, are pushed one after the other.
pub push_all : List LogEntry → List LogEntry → List LogEntry
push_all logs [] = logs
push_all logs (e ∷ es) = push_all (push_log e logs) es

pop_front-eq : (xs : List LogEntry) → pop_front xs ≡ drop 1 xs
pop_front-eq [] = refl
pop_front-eq (x ∷ xs) = refl

push_log-last_items :
    (e : LogEntry) (past : List LogEntry)
    → push_log e (last_items max_log_entries past) ≡ last_items max_log_entries (past ++ e ∷ [])
unfolding push_log
push_log-last_items e past =
    let size = length-drop {0} (length past - max_log_entries) past in
    let grown = length-append {0} past (e ∷ []) in
    elim (Bool-cases (leb max_log_entries (length (last_items max_log_entries past)))) [
      | inl full ↦ rw full (
          ap (λ t. t ++ e ∷ [])
            (pop_front-eq (last_items max_log_entries past) ∙ drop-drop 1 (length past - 500) past)
          ∙ sym (drop-append_le _ past (e ∷ []) (ground (arith, size, full)))
          ∙ ap (λ k. drop k (past ++ e ∷ [])) (ground (arith, size, full, grown)))
      | inr room ↦ rw room (
          sym (drop-append_le _ past (e ∷ []) (omega arith))
          ∙ ap (λ k. drop k (past ++ e ∷ [])) (ground (arith, size, room, grown)))
    ]

push_all-last_items :
    (past es : List LogEntry)
    → push_all (last_items max_log_entries past) es ≡ last_items max_log_entries (past ++ es)
unfolding push_all
push_all-last_items past [] = ap (last_items max_log_entries) (sym (append-nil past))
push_all-last_items past (e ∷ es) =
    ap (λ l. push_all l es) (push_log-last_items e past)
    ∙ push_all-last_items (past ++ e ∷ []) es
    ∙ ap (last_items max_log_entries) (append_assoc past (e ∷ []) es)

drop_all :
    (n : ℕ) (logs : List LogEntry) → (n == 0 || is_empty logs) ≡ true → last_items n logs ≡ []
drop_all n [] h = drop-nil (0 - n) [] refl
drop_all n (x ∷ xs) h =
    let all : length (x ∷ xs) - n ≡ length (x ∷ xs) = ground arith in
    ap (λ k. drop k (x ∷ xs)) all ∙ drop-length (x ∷ xs)

get_recent_logs-eq : (n : ℕ) (logs : List LogEntry) → get_recent_logs n logs ≡ last_items n logs
unfolding get_recent_logs
get_recent_logs-eq n logs = elim (Bool-cases (n == 0 || is_empty logs)) [
  | inl nothing ↦ rw nothing (sym (drop_all n logs nothing))
  | inr some_ ↦ rw some_ (ap (λ k. drop k logs) (ground arith))
]

-- Whatever was logged since the start, the buffer holds at most `max_log_entries` entries, and
-- asking for the last `n` entries returns, in order, the last `n` of all, or the last
-- `max_log_entries` where `n` is larger.
pub get_recent_logs-push_all :
    (n : ℕ) (history : List LogEntry)
    → (length (push_all [] history) ≤ max_log_entries)
      × (get_recent_logs n (push_all [] history) ≡ last_items (min n max_log_entries) history)
get_recent_logs-push_all n history =
    let size = length-drop {0} (length history - max_log_entries) history in
    let window = push_all-last_items [] history in
    (
      rw window (omega (arith, size)),
      get_recent_logs-eq n _
          ∙ rw window (
              drop-drop _ (length history - max_log_entries) history
              ∙ ap (λ k. drop k history) (ground (arith, size))),
    )
