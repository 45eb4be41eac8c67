-- ===== src/Pattern/Examples.antt =====
-- Conversations of REQ and REP sockets.
use libzmq_ru.Base.{◌≡◌, true, false, List, [], ◌∷◌}
use libzmq_ru.Pattern.Conversation.{
  Event, sends, recvs, new_socket, accepts, alternates, accepts-alternates,
}
use libzmq_ru.SocketType.{req, rep}

abbrev question_and_answer : List Event
question_and_answer = sends true ∷ sends false ∷ recvs false ∷ sends false ∷ []

accepts-alternates_example :
    (accepts (new_socket req false) question_and_answer ≡ alternates true question_and_answer)
    × (accepts (new_socket rep false) question_and_answer ≡ alternates false question_and_answer)
accepts-alternates_example = accepts-alternates false question_and_answer
