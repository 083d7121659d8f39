-- ===== src/Examples/Conversation.antt =====
-- The session as a process, with a server that counts its requests.
use crackme.Base.{ℕ, ◌+◌, Bytes, Result}
use crackme.Protocol.Session.Conversation.{Request, get_request, post_request, play, conversation}
use crackme.Protocol.Session.Conversation.Log.{Course}
use crackme.Protocol.Session.Conversation.Course.{conversation-Course}
use crackme.Vm.Program.Vectors.{username, license}
use crackme.Examples.Honest.{lawful, http, draws}

abbrev counting : ℕ → Request → Result Bytes × ℕ
counting n (get_request path) = (http.get path, n + 1)
counting n (post_request path body) = (http.post path body, n + 1)

conversation-Course_example :
    let (log, r) = play counting 0 (conversation lawful draws username license) in
    Course lawful draws username license log r
conversation-Course_example = conversation-Course lawful draws username license counting 0
