-- ===== src/Chat/Examples.antt =====
-- The chat of lab07/zad1a/server.c with two clients.
use operating_systems_agh_la.Base.{
  ℕ, zero, suc, ◌+◌, ◌<◌, ◌≡◌, ◌≢◌, ◌++◌, refl, true, some, [], ◌∷◌, length, arith,
}
use operating_systems_agh_la.Chat.{
  Text, Client, ok, out_of_bounds, World, Poll, nothing, gone, got, nobody, joins, round, chat_line,
  joined_info, send_everyone,
}
use operating_systems_agh_la.Chat.Present.{IsChat, Leaves, new_clients, round-IsChat}
use operating_systems_agh_la.Chat.Recipients.{to, send_everyone-without}

abbrev world : World
world = record { queue_of = λ id. some (100 + id); sends = λ q text. true }

abbrev ann : Client
ann = record { id = 7; queue = 107; name = 97 ∷ []; present = true }

abbrev bob : Client
bob = record { id = 8; queue = 108; name = 98 ∷ []; present = true }

abbrev hello : Text
hello = 104 ∷ 105 ∷ []

-- Ann says "hi", nobody else says anything.
abbrev inbox : ℕ → Poll
inbox zero = got [] hello
inbox (suc n) = nothing

round-IsChat_example :
    Leaves
      (λ (cs, sent).
        IsChat cs
        × (cs ≡ (ann ∷ []) ++ new_clients world (joins 8 (98 ∷ [])))
        × ((k : ℕ) → k < length cs → inbox k ≢ gone))
      (round world (joins 8 (98 ∷ [])) inbox (ann ∷ []))
round-IsChat_example =
    round-IsChat world (joins 8 (98 ∷ [])) inbox (ann ∷ []) ((refl, tt), omega arith)

-- Bob joins, both are told, and Bob alone gets what Ann says.
round-joins :
    round world (joins 8 (98 ∷ [])) inbox (ann ∷ [])
    ≡ ok (
      ann ∷ bob ∷ [],
      to (joined_info (98 ∷ [])) ann
          ∷ to (joined_info (98 ∷ [])) bob
          ∷ to (chat_line [] (97 ∷ []) hello) bob
          ∷ [],
    )
unfolding round
round-joins = refl

-- A queue that is gone ends in a write behind `info`.
round-gone : round world nobody (λ k. gone) (ann ∷ bob ∷ []) ≡ out_of_bounds
unfolding round
round-gone = refl

send_everyone-without_example :
    send_everyone world (ann ∷ bob ∷ []) hello (some 1) []
    ≡ ok (to (chat_line [] (98 ∷ []) hello) ann ∷ [])
send_everyone-without_example =
    send_everyone-without world (ann ∷ bob ∷ []) 1 bob [] hello (refl, (refl, tt)) refl
      (omega arith) (λ q. refl)
