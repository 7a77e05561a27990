-- ===== src/Ftp/Tests/ListOfTwo.antt =====
-- Two clients in the list: a third one comes, and the last of the two goes.
use vitacompanion_vitadeck.Prelude.{
  ◌≡◌, ◌⊎◌, refl, true, false, ◌||◌, none, some, [], ◌∷◌, arith, leb, ◌==◌, if◌then◌else◌,
}
use vitacompanion_vitadeck.Ftp.Clients.{Clients, client_list_add, client_list_delete}
use vitacompanion_vitadeck.Ftp.Clients.Links.{mem}
use vitacompanion_vitadeck.Ftp.Clients.Removal.{remove}
use vitacompanion_vitadeck.Ftp.Clients.Admission.{Represents}
use vitacompanion_vitadeck.Ftp.Clients.List.{
  client_list_add-Represents, client_list_delete-Represents,
}

abbrev two : Clients
two = record {
  heap = λ a.
      if a == 10
      then record { prev = none; next = some 20; in_client_list = true; restore_point = 5 }
      else if a == 20
      then record { prev = some 10; next = none; in_client_list = true; restore_point = 0 }
      else record { prev = none; next = none; in_client_list = false; restore_point = 0 };
  client_list = some 10;
  number_clients = 2;
  reboot_quiesce_requested = false;
}

two-Represents : Represents two (10 ∷ 20 ∷ [])
two-Represents = record {
  links = (refl, refl, (refl, refl, refl));
  distinct = (refl, (refl, tt));
  flags = λ a. ground arith;
  count = refl;
}

client_list_add-Represents_example :
    (((false || leb 8 2) ≡ true) × (client_list_add 30 two ≡ (false, two)))
    ⊎ (((false || leb 8 2) ≡ false)
        × ((client_list_add 30 two).0 ≡ true)
        × Represents (client_list_add 30 two).1 (30 ∷ 10 ∷ 20 ∷ []))
client_list_add-Represents_example =
    client_list_add-Represents 30 two (10 ∷ 20 ∷ []) two-Represents refl

client_list_delete-Represents_example :
    ((mem 20 (10 ∷ 20 ∷ []) ≡ false) × (client_list_delete 20 two ≡ (false, two)))
    ⊎ ((mem 20 (10 ∷ 20 ∷ []) ≡ true)
        × ((client_list_delete 20 two).0 ≡ true)
        × Represents (client_list_delete 20 two).1 (remove 20 (10 ∷ 20 ∷ [])))
client_list_delete-Represents_example =
    client_list_delete-Represents 20 two (10 ∷ 20 ∷ []) two-Represents
