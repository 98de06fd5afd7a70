-- ===== src/PacketHandler/Tests.antt =====
-- A chat of two letters, and a server that notes the sizes of its broadcasts.
use server_study.Prelude.{
  ℕ, ◌+◌, ◌-◌, ◌≡◌, ◌≢◌, refl, ◌⊎◌, Bool, true, none, some, List, [], ◌∷◌, Array, window, memory,
  arith,
}
use server_study.PacketHandler.{address_space, size_at, id_at, chat_packet, handle_chat, execute}
use server_study.PacketHandler.Broadcasts.{IsPacket, execute_lem}

abbrev broadcast : List ℕ → Array ℕ → ℕ → Bool × List ℕ
broadcast w packet handle = (true, packet 0 ∷ handle ∷ w)

abbrev chat : Array ℕ
chat = memory (6 ∷ 0 ∷ 2 ∷ 0 ∷ 72 ∷ 105 ∷ [])

abbrev dropped : Array ℕ
dropped = memory (6 ∷ 0 ∷ 3 ∷ 0 ∷ [])

sizes : execute broadcast [] 7 chat 0 ≡ some (true, 14 ∷ 7 ∷ [])
unfolding execute handle_chat chat_packet size_at id_at
sizes = refl

-- The id is not checked: there is no such handler.
no_handler : execute broadcast [] 7 dropped 0 ≡ none
unfolding execute id_at
no_handler = refl

execute_lem_example :
    ((packet : List ℕ) × (n : ℕ) × (((id_at chat 0 ≡ 1) × (n ≡ 8))
        ⊎ ((id_at chat 0 ≡ 2) × (n ≡ size_at chat 0 - 4)))
      × IsPacket packet (id_at chat 0) 7 (window chat address_space (0 + 4) n)
      × (execute broadcast [] 7 chat 0 ≡ some (broadcast [] (memory packet) 7)))
    ⊎ ((id_at chat 0 ≢ 1) × (id_at chat 0 ≢ 2) × (execute broadcast [] 7 chat 0 ≡ none))
unfolding size_at
execute_lem_example = execute_lem broadcast [] 7 chat 0 (omega arith) (omega arith) (omega arith)
