-- ===== src/Tests/Files.antt =====
-- A ramfs with one empty file, node 0.
use os_agent_lab.Prelude.{
  get_or, ◌==◌, ◌++◌, some, true, false, ℕ, ◌≡◌, ◌≢◌, refl, List, [], ◌∷◌, arith, ok, take,
}
use os_agent_lab.Phys.Slices.{ByteList}
use os_agent_lab.File.{Files, fresh_file}
use os_agent_lab.File.Io.{file_read}
use os_agent_lab.File.Io.Sequence.{HasContent, file_read-file_read}
use os_agent_lab.Ramfs.Operations.{ramfs_ops, ramfs_ops-HasContent}
use os_agent_lab.Vnode.{OpsTable, NodeType, fresh_vnode}
use os_agent_lab.Ramfs.{Node, Ramfs, fresh_node, ramfs_read, ramfs_write, ramfs_truncate}
use os_agent_lab.Ramfs.Content.{
  IsSound, Written, fitting, ramfs_write-Written, ramfs_read-ramfs_write,
}
use os_agent_lab.Ramfs.Truncate.{Truncated, ramfs_truncate-Truncated}

abbrev empty_file : Node
empty_file = record fresh_node { type = NodeType.file }

abbrev one_file : Ramfs
one_file = record {
  nodes = λ i. empty_file;
  pool = record { vnode = λ i. fresh_vnode; used = λ i. false };
}

empty_IsSound : IsSound empty_file
empty_IsSound = record { fits = omega arith; zeros = λ i lo. refl }

abbrev hello : List ℕ
hello = b'h' ∷ b'e' ∷ b'l' ∷ b'l' ∷ b'o' ∷ []

hello-ByteList : ByteList hello
hello-ByteList = (omega arith, (omega arith, (omega arith, (omega arith, (omega arith, tt)))))

-- Three of the five bytes fit behind offset 4093.
ramfs_write-Written_example :
    let (r, s') = ramfs_write 0 hello 4093 one_file in
    (r ≡ ok (fitting 5 4093))
    × Written empty_file hello 4093 (s'.nodes 0)
    × ((other : ℕ) → other ≢ 0 → s'.nodes other ≡ one_file.nodes other)
ramfs_write-Written_example =
    ramfs_write-Written one_file 0 hello 4093 refl empty_IsSound hello-ByteList (omega arith)
      (omega arith)

ramfs_read-ramfs_write_example :
    ramfs_read 0 5 4093 (ramfs_write 0 hello 4093 one_file).1 ≡ ok (take (fitting 5 4093) hello)
ramfs_read-ramfs_write_example =
    ramfs_read-ramfs_write one_file 0 hello 4093 refl empty_IsSound hello-ByteList (omega arith)
      (omega arith)

ramfs_truncate-Truncated_example :
    let (r, s') = ramfs_truncate 0 5000 one_file in
    (r ≡ ok tt)
    × Truncated empty_file 5000 (s'.nodes 0)
    × ((other : ℕ) → other ≢ 0 → s'.nodes other ≡ one_file.nodes other)
ramfs_truncate-Truncated_example = ramfs_truncate-Truncated one_file 0 5000 refl empty_IsSound

-- The file "hello", node 0, behind the vnode 0, and open for reading as file 0.
abbrev hello_file : Node
hello_file = record fresh_node { type = NodeType.file; size = 5; bytes = λ i. get_or hello i 0 }

abbrev hello_fs : Ramfs
hello_fs = record {
  nodes = λ i. hello_file;
  pool = record { vnode = λ i. record fresh_vnode { ops = OpsTable.ramfs }; used = λ i. i == 0 };
}

abbrev hello_open : Files
hello_open = record {
  file = λ i. record fresh_file { readable = true; vn = some 0 };
  used = λ i. i == 0;
}

hello-HasContent : HasContent ramfs_ops hello_fs 0 hello_file.bytes 5
hello-HasContent = ramfs_ops-HasContent hello_fs 0 refl refl

-- Two bytes and then four more, of which three are there.
file_read-file_read_example :
    (bs : List ℕ) × (cs : List ℕ) × (s1 : Files) × (s2 : Files) × (s' : Files) × (file_read
        ramfs_ops 0 2 hello_open hello_fs
      ≡ (ok bs, s1))
    × (file_read ramfs_ops 0 4 s1 hello_fs ≡ (ok cs, s2))
    × (file_read ramfs_ops 0 6 hello_open hello_fs ≡ (ok (bs ++ cs), s'))
    × ((s'.file 0).off ≡ (s2.file 0).off)
file_read-file_read_example =
    file_read-file_read ramfs_ops hello_fs 0 hello_file.bytes 5 hello-HasContent 0 2 4 hello_open
      (record { readable = refl; vnode = refl }) (omega arith) (omega arith)
