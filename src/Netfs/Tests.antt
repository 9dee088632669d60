-- ===== src/Netfs/Tests.antt =====
-- A request to read, in two pieces, that the server of hw2-netfs answers from a container of four
-- blocks.
use mipt_kis_linux.Prelude.{ℕ, true, refl, List, [], ◌∷◌, ◌++◌, arith, take, drop, le_bytes}
use mipt_kis_linux.Rfs.Machine.{Message, invalid_position, fault}
use mipt_kis_linux.Rfs.Files.Content.{file_contents}
use mipt_kis_linux.Rfs.Paths.{
  split_path, measure_path, fill_path, text_in, locate_path, locate_from,
}
use mipt_kis_linux.Rfs.Examples.{tiny, tiny_fs, tiny-IsGeometry, tiny-IsFile, tiny-size}
use mipt_kis_linux.Netfs.Socket.{Socket, got, safe_read}
use mipt_kis_linux.Netfs.Socket.Pieces.{Delivers, end, piece, Takes, safe_read-Takes}
use mipt_kis_linux.Netfs.Protocol.{
  NetFsOperation, Unread, read, complete, slz_NetFsOperation_read, slz_NetFsOperation_write,
  write_array,
}
use mipt_kis_linux.Netfs.Fields.{Yields}
use mipt_kis_linux.Netfs.Roundtrip.{slz_NetFsOperation_read-slz_NetFsOperation_write}
use mipt_kis_linux.Netfs.Server.{path_text, serve_next_operation}
use mipt_kis_linux.Netfs.Server.Answers.{Leads}
use mipt_kis_linux.Prelude.{◌^◌, ◌<◌}
use mipt_kis_linux.Netfs.Roundtrip.{IsOperation}
use mipt_kis_linux.Netfs.Client.{value, refused, path_string, send_read}
use mipt_kis_linux.Netfs.Client.Reads.{
  Answers, receive_read-serve_next_operation, receive_read-past,
}

abbrev root : List ℕ
root = b'/' ∷ 0 ∷ []

abbrev two_pieces : Socket
two_pieces = got (1 ∷ 2 ∷ 3 ∷ []) ∷ got (4 ∷ 5 ∷ []) ∷ []

two_pieces-Delivers : Delivers (1 ∷ 2 ∷ 3 ∷ 4 ∷ 5 ∷ []) two_pieces
two_pieces-Delivers =
    piece 1 (2 ∷ 3 ∷ []) (4 ∷ 5 ∷ []) (got (4 ∷ 5 ∷ []) ∷ []) (piece 4 (5 ∷ []) [] [] (end []))

safe_read-Takes_example : Takes 4 (1 ∷ 2 ∷ 3 ∷ 4 ∷ 5 ∷ []) (safe_read 4 two_pieces)
safe_read-Takes_example =
    safe_read-Takes 4 (1 ∷ 2 ∷ 3 ∷ 4 ∷ 5 ∷ []) two_pieces two_pieces-Delivers (omega arith)

-- A fault where nothing was read.
abbrev pub unread : Unread
unread = record { buffer = λ i. 0; operation = fault }

abbrev request : NetFsOperation
request = read root 6 100

abbrev past_request : NetFsOperation
past_request = read root 50 1

-- The bytes of a request in one piece.
abbrev sends : NetFsOperation → Socket
sends op = got (slz_NetFsOperation_write 7 8 op ++ []) ∷ []

request-Delivers : Delivers (slz_NetFsOperation_write 7 8 request ++ []) (sends request)
unfolding slz_NetFsOperation_write le_bytes write_array
request-Delivers = piece _ _ [] [] (end [])

past_request-Delivers :
    Delivers (slz_NetFsOperation_write 7 8 past_request ++ []) (sends past_request)
unfolding slz_NetFsOperation_write le_bytes write_array
past_request-Delivers = piece _ _ [] [] (end [])

root-Leads : Leads tiny_fs tiny root 1
unfolding path_text text_in split_path measure_path fill_path locate_path locate_from
root-Leads = record {
  text = b'/' ∷ [];
  parts = record { line = []; parts = 0 ∷ []; count = 0 };
  read_text = refl;
  split = refl;
  located = refl;
}

abbrev pub text_of_message : Message → List ℕ
text_of_message e = b'e' ∷ []

slz_NetFsOperation_read-slz_NetFsOperation_write_example :
    Yields (slz_NetFsOperation_read unread) (complete request) [] (sends request)
slz_NetFsOperation_read-slz_NetFsOperation_write_example =
    slz_NetFsOperation_read-slz_NetFsOperation_write unread request 7 8 [] (sends request)
      (omega arith, omega arith, omega arith) request-Delivers

abbrev pub slash_path : List ℕ
slash_path = b'/' ∷ []

sent-Delivers :
    (offset len : ℕ)
    → Delivers (send_read 7 8 slash_path offset len ++ []) (sends (read root offset len))
unfolding send_read path_string slz_NetFsOperation_write le_bytes write_array
sent-Delivers offset len = piece _ _ [] [] (end [])

pub slash_path-Leads : Leads tiny_fs tiny (path_string slash_path) 1
unfolding path_string
slash_path-Leads = root-Leads

slash-IsOperation :
    (offset len : ℕ)
    → offset < 2 ^ 64
    → len < 2 ^ 64
    → IsOperation (read (path_string slash_path) offset len)
unfolding path_string
slash-IsOperation offset len h k = (omega arith, h, k)

receive_read-serve_next_operation_example :
    Answers
      (serve_next_operation 9 tiny_fs (λ n. true) unread text_of_message (sends request) tiny)
      (value (take 100 (drop 6 (file_contents tiny_fs tiny 1 (2 ∷ [])))))
      tiny
receive_read-serve_next_operation_example =
    receive_read-serve_next_operation unread tiny_fs (λ n. true) tiny tiny-IsGeometry slash_path 1
      (2 ∷ []) slash_path-Leads tiny-IsFile 9 7 8 text_of_message 6 100
      (slash-IsOperation 6 100 (omega arith) (omega arith)) [] (sends request) refl
      (sent-Delivers 6 100) (omega (arith, tiny-size)) (omega arith)

receive_read-past_example :
    Answers
      (serve_next_operation 9 tiny_fs (λ n. true) unread text_of_message (sends past_request) tiny)
      (refused (text_of_message invalid_position ++ 0 ∷ []))
      tiny
receive_read-past_example =
    receive_read-past unread tiny_fs (λ n. true) tiny tiny-IsGeometry slash_path 1 (2 ∷ [])
      slash_path-Leads tiny-IsFile 9 7 8 text_of_message 50 1
      (slash-IsOperation 50 1 (omega arith) (omega arith)) [] (sends past_request) refl
      (sent-Delivers 50 1) (omega arith) (omega (arith, tiny-size)) (omega arith) (omega arith)
