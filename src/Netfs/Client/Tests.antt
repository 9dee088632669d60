-- ===== src/Netfs/Client/Tests.antt =====
-- hw2-netfs: a client that prints a file of twelve bytes of a small container.
use mipt_kis_linux.Prelude.{
  ℕ, true, ◌<◌, ◌≡◌, refl, subst, append-nil, List, [], ◌∷◌, ◌++◌, arith, length, le_bytes,
  le_value,
}
use mipt_kis_linux.Rfs.Machine.{load_le, load_bytes}
use mipt_kis_linux.Rfs.Blocks.{get_inode, get_next_inode}
use mipt_kis_linux.Rfs.Files.{
  advance, skip_first, skip_common, seek, read_loop, read_part, read_file,
}
use mipt_kis_linux.Rfs.Files.Content.{file_contents, tail_bytes}
use mipt_kis_linux.Rfs.Paths.{
  split_path, measure_path, fill_path, text_in, locate_path, locate_from,
}
use mipt_kis_linux.Rfs.Examples.{tiny, tiny_fs, tiny-IsGeometry, tiny-IsFile, tiny-size}
use mipt_kis_linux.Netfs.Socket.{Socket, got, read_some, read_rounds, safe_read}
use mipt_kis_linux.Netfs.Socket.Pieces.{Delivers, end, piece}
use mipt_kis_linux.Netfs.Protocol.{
  read_array, write_array, slz_FsOpRead_read, slz_path_read, read_args, slz_NetFsOperation_read,
  slz_NetFsOperation_write,
}
use mipt_kis_linux.Netfs.Fields.{IsWord}
use mipt_kis_linux.Netfs.Server.{
  slz_String_write, write_empty_error, path_text, fsop_read, process_operation, answer_to,
  serve_next_operation, after_request, serve_client,
}
use mipt_kis_linux.Netfs.Client.{
  CatRun, slz_String_read, read_error, receive_read, path_string, send_read, cat_rounds,
}
use mipt_kis_linux.Netfs.Client.Cat.{Prints, cat_rounds-serve_client}
use mipt_kis_linux.Netfs.Tests.{slash_path, slash_path-Leads, text_of_message, unread}

-- The contents, and then nothing.
abbrev answer_bytes : List ℕ
answer_bytes =
    (write_empty_error 9 ++ slz_String_write 9 (file_contents tiny_fs tiny 1 (2 ∷ [])))
    ++ ((write_empty_error 9 ++ slz_String_write 9 []) ++ [])

abbrev answers : Socket
answers = got answer_bytes ∷ []

abbrev run : CatRun
run = cat_rounds 7 8 slash_path 13 100 0 answers

abbrev requests : Socket
requests = got run.sent ∷ []

whole-Delivers : (bytes : List ℕ) → 0 < length bytes → Delivers bytes (got bytes ∷ [])
whole-Delivers [] some_bytes = absurd (omega arith)
whole-Delivers (b ∷ bs) some_bytes =
    subst (λ bytes. Delivers bytes (got (b ∷ bs) ∷ [])) (append-nil (b ∷ bs))
      (piece b bs [] [] (end []))

length-sent : length run.sent ≡ 92
unfolding cat_rounds receive_read read_error slz_String_read send_read path_string safe_read
    read_rounds read_some read_array write_array slz_String_write write_empty_error
    slz_NetFsOperation_write le_bytes le_value load_le load_bytes tail_bytes
length-sent = refl

requests-Delivers : Delivers run.sent requests
requests-Delivers = whole-Delivers run.sent (omega (arith, length-sent))

answers-serve_client :
    answer_bytes ≡ (serve_client 9 tiny_fs (λ n. true) 13 unread text_of_message requests tiny).0
unfolding cat_rounds receive_read read_error slz_String_read send_read path_string safe_read
    read_rounds read_some read_array write_array slz_String_write write_empty_error
    slz_NetFsOperation_write le_bytes le_value load_le load_bytes tail_bytes serve_client
    after_request serve_next_operation answer_to process_operation fsop_read path_text text_in
    split_path measure_path fill_path locate_path locate_from slz_NetFsOperation_read read_args
    slz_FsOpRead_read slz_path_read read_file read_part read_loop seek skip_first skip_common
    advance get_inode get_next_inode
answers-serve_client = refl

length-answers : length answer_bytes ≡ 110
unfolding load_bytes load_le tail_bytes slz_String_write write_empty_error write_array le_bytes
length-answers = refl

answers-Delivers :
    Delivers (serve_client 9 tiny_fs (λ n. true) 13 unread text_of_message requests tiny).0 answers
answers-Delivers =
    subst (λ bytes. Delivers bytes answers) answers-serve_client
      (whole-Delivers answer_bytes (omega (arith, length-answers)))

path-IsWord : IsWord (length (path_string slash_path))
unfolding path_string
path-IsWord = omega arith

cat_rounds-serve_client_example : Prints (file_contents tiny_fs tiny 1 (2 ∷ [])) run
cat_rounds-serve_client_example =
    cat_rounds-serve_client unread tiny_fs (λ n. true) tiny tiny-IsGeometry slash_path 1 (2 ∷ [])
      slash_path-Leads tiny-IsFile path-IsWord 9 7 8 text_of_message 100 (omega arith) refl
      (omega (arith, tiny-size)) 13 13 answers requests (omega (arith, tiny-size))
      (omega (arith, tiny-size)) requests-Delivers answers-Delivers
